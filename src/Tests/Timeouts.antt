-- ===== src/Tests/Timeouts.antt =====
-- Timeouts at given inputs.
use mcfgthread.Base.{◌≡◌, some, pos, negsuc, refl}
use mcfgthread.Timeout.{WinntTimeout, initialize_winnt_timeout}
use mcfgthread.Timeout.Bounds.{exact_timeout, initialize_exact}

initialize_exact_example :
    (initialize_winnt_timeout (some (negsuc 99)) 7).quad ≡ exact_timeout (negsuc 99)
initialize_exact_example = initialize_exact (negsuc 99) 7

longest_kept :
    (initialize_winnt_timeout (some (pos 910692730085477)) 0).quad ≡ pos 9223372036854770000
unfolding initialize_winnt_timeout
longest_kept = refl

abbrev delay : WinntTimeout
delay = record { quad = negsuc 999; since = 50 }

-- ===== src/Examples/Text.antt =====
-- What printing a buffer as a C string needs of it, in examples/tcp_server_tester2.cpp,
-- tcp_server_tester.cpp and udp_server_tester.cpp.
use light_server.Base.{ℕ, Bool, false, List, [], ◌∷◌, ◌==◌, ◌||◌, if◌then◌else◌}
use light_server.Machine.{Fault, M, pure, stop}
use light_server.SocketManager.WellFormed.{Safe}
use light_server.SocketManager.WellFormed.Rules.{Safe-if, Safe-pure, Safe-stop}

abbrev pub has_nul : List ℕ → Bool
has_nul [] = false
has_nul (c ∷ cs) = (c == 0) || has_nul cs

-- `cout << (char*)buf` for the bytes that were read: without a NUL among them it reads on behind them,
-- into bytes that may never have been written.
unfoldable pub print_string : {S : Type 0} → List ℕ → M S (Unit {0})
print_string buf = if has_nul buf then pure tt else stop Fault.undefined_behaviour

pub print_string-Safe : {S : Type 0} (buf : List ℕ) → Safe {S = S} (print_string buf)
unfolding print_string
print_string-Safe buf = Safe-if (has_nul buf) _ _ (Safe-pure tt) (Safe-stop _)

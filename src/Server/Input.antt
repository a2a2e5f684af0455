-- ===== src/Server/Input.antt =====
-- The loop that the three `HandleReceive` functions share in shape: receive until the socket would
-- block, is closed or fails. socket_manager/tcp_server.cpp, udp_server.cpp, tcp_client.cpp.
use light_server.Base.{ℕ, zero, suc, ◌+◌, Bool, true, false, not, ◌||◌, ltb, ◌==◌, if◌then◌else◌}
use light_server.Common.{minus_one, ewouldblock, is_positive}
use light_server.Machine.{Call, Fault, Answer, Kernel, M, ◌>>=◌, ◌>>◌, pure, stop, sys}
use light_server.SocketManager.Objects.{close_socket}

-- MAX_CONTINUE_READS
abbrev pub max_continue_reads : ℕ
max_continue_reads = 30

-- `receive` is the system call, `within_limit` the traffic limit (it stops the loop where it is
-- false), and `deliver` the listener's `DoRead`.
pub record Input (S : Type 0) : Type 0 where
  pub receive : Call
  pub within_limit : Answer → M S Bool
  pub deliver : Answer → M S (Unit {0})

module _ (k : Kernel) {S : Type 0} (input : Input S) (sock : ℕ) where
  abbrev close_and_fail : M S Bool
  close_and_fail = do close_socket k sock; pure false

  -- The part of a round for a result that is not positive.
  abbrev pub no_data : Answer → M S Bool
  no_data r =
      if r.ret == 0
      then close_and_fail
      else if not (r.ret == minus_one)
      then stop Fault.failed_assertion
      else if r.errno == ewouldblock
      then pure true
      else close_and_fail

  -- `reads < 0` is `endless`. The rounds are those that are modelled at most.
  unfoldable pub receive_loop : ℕ → Bool → ℕ → M S Bool
  receive_loop zero endless i = stop Fault.out_of_rounds
  receive_loop (suc rounds) endless i =
      let more = receive_loop rounds endless (i + 1) in
      if ltb i max_continue_reads || endless
      then (do
        r ← sys k input.receive
        if is_positive r.ret
            then (do
              go ← input.within_limit r
              if go then (do input.deliver r; more) else pure false)
            else no_data r)
      else pure true

  -- `reads = flag ? -1 : MAX_CONTINUE_READS`
  unfoldable pub receive_all : ℕ → M S Bool
  receive_all flag = receive_loop k.rounds (not (flag == 0)) 0

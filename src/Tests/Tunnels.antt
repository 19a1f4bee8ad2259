-- ===== src/Tests/Tunnels.antt =====
-- The test of the tunnel at a kernel that brings the message back.
use autossh_1_4g.Base.{◌≡◌, refl, true, false, [], ◌∷◌, ◌++◌, ◌==◌, arith, length, if◌then◌else◌}
use autossh_1_4g.Base.Int.{pos}
use autossh_1_4g.Base.Bytes.{Bytes, codes, decimal}
use autossh_1_4g.Posix.{Os, wrote, got}
use autossh_1_4g.Process.Triple.{Ends}
use autossh_1_4g.Drain.{c_str}
use autossh_1_4g.Conn.{hello, conn_test}
use autossh_1_4g.Conn.Verdict.{CameBack, hello_of, conn_test-CameBack}
use autossh_1_4g.Conn.Healthy.{join}
use autossh_1_4g.Conn.Works.{conn_test-true}
use autossh_1_4g.Tests.Examples.{quiet_os, with_child}
use autossh_1_4g.Tests.Runtime.{with_child-IsTidy}

abbrev front : Bytes
front = codes "host autos"

abbrev back : Bytes
back = codes "sh 77 12345 " ++ 13 ∷ 10 ∷ []

-- The writes are the calls 5 and 6, and the reads the calls 7 and 8.
abbrev echo_os : Os
echo_os = record quiet_os {
  write = λ n. if n == 5 then wrote 10 else wrote 14;
  read = λ n. if n == 7 then got front else got back;
}

conn_test-CameBack_example :
    Ends
      (λ ok t. ok ≡ true → CameBack echo_os (hello_of echo_os with_child) 0 t.calls)
      (λ _. Unit)
      (conn_test (pos 4) (codes "2000") echo_os with_child)
conn_test-CameBack_example =
    conn_test-CameBack (pos 4) (codes "2000") echo_os with_child with_child-IsTidy

message_back : join (front ∷ back ∷ []) ≡ hello_of echo_os with_child
unfolding hello decimal
message_back = refl

message_text : c_str (hello_of echo_os with_child) ≡ hello_of echo_os with_child
unfolding hello decimal c_str
message_text = refl

message_length : length (hello_of echo_os with_child) ≡ 24
unfolding hello decimal
message_length = refl

conn_test-true_example :
    Ends (λ ok t. ok ≡ true) (λ _. ⊥) (conn_test (pos 4) (codes "2000") echo_os with_child)
conn_test-true_example =
    conn_test-true (pos 4) (codes "2000") echo_os with_child 7 8 (10 ∷ 14 ∷ []) (front ∷ back ∷ [])
      (λ n. refl) refl (λ n. refl) (λ n. refl) message_text (omega (arith, message_length))
      (omega (arith, message_length)) message_back (refl, omega arith, (refl, omega arith, tt))
      (refl, omega arith, (refl, omega arith, tt))

-- A kernel that gives nothing back does not pass.
silent_test :
    Ends (λ ok t. ok ≡ false) (λ _. ⊥) (conn_test (pos 4) (codes "2000") quiet_os with_child)
unfolding conn_test hello decimal c_str
silent_test = refl

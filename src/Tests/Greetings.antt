-- ===== src/Tests/Greetings.antt =====
-- The theorems on how a client waits and how it is greeted, in memory.
use h2l.Base.{
  Bool, true, ℕ, ◌*◌, ◌≡◌, refl, ◌⊎◌, false, some, List, [], ◌∷◌, ◌++◌, Bool, arith, ltb,
}
use h2l.Base.Outcome.{ok}
use h2l.Consts.{http_2_0_preface, http_2_0_settings}
use h2l.Crates.Bitflags.{plain_bits}
use h2l.Frame.Any.{settings}
use h2l.Transaction.{frame}
use h2l.Server.Forward.{find_link, on_transaction}
use h2l.Server.Reply.{Answers}
use h2l.Link.Read.{broken}
use h2l.Link.Handshake.{read_loop}
use h2l.Link.Write.{write_one, write_loop}
use h2l.Link.Written.{Failed}
use h2l.Client.Delay.{reconnect_delay_ms, delay_until_exit_loop, Waits, delay_until_exit_loop-Waits}
use h2l.Composition.Opening.{opening_settings}
use h2l.Composition.Greeting.{reply, replied, Greets, handshake-opening_settings}
use h2l.Tests.Memory.{vec_buffer, pipe, Pipe, delivering}
use h2l.Tests.Queues.{queues}
use h2l.Tests.Openings.{refusing}
use h2l.Tests.Servers.{a_link, closure, one_link}
use h2l.Tests.Streams.{same}

-- The exit is asked for in the third round.
abbrev is_exit_loop : ℕ → Bool
is_exit_loop n = ltb 1 n

abbrev elapsed : ℕ → ℕ
elapsed n = 45 * n

delay_until_exit_loop-Waits_example :
    (m : ℕ) × (delay_until_exit_loop is_exit_loop elapsed reconnect_delay_ms 76 0 ≡ some m)
    × Waits is_exit_loop elapsed reconnect_delay_ms 0 m
delay_until_exit_loop-Waits_example =
    delay_until_exit_loop-Waits is_exit_loop elapsed reconnect_delay_ms 76 (λ k. omega arith)
      (omega arith)

abbrev opened : Pipe
opened = delivering (http_2_0_preface ++ http_2_0_settings)

handshake-opening_settings_example :
    ((d : Pipe) × (read_loop plain_bits vec_buffer refusing pipe 2 opened
        ≡ (settings opening_settings ∷ [], (broken, d))))
    × Answers plain_bits queues
        (on_transaction plain_bits queues closure (frame (settings opening_settings) (some 5)))
        false
        a_link
        (reply 5)
        one_link
    × ((e : Pipe) × (left : Bool) × (write_loop plain_bits vec_buffer pipe
            (replied {Sender = ℕ} 5 same same)
            (delivering [])
          ≡ (ok left, e))
        × (((left ≡ false)
              × ((c : Pipe) (rest : List ℕ)
                  → Greets plain_bits vec_buffer refusing queues pipe pipe closure e.written c
                      rest))
            ⊎ ((left ≡ true)
                × Failed pipe
                    (write_one plain_bits vec_buffer pipe)
                    (replied {Sender = ℕ} 5 same same)
                    (delivering [])
                    e)))
unfolding find_link
handshake-opening_settings_example =
    handshake-opening_settings plain_bits vec_buffer refusing queues pipe pipe closure 5 a_link
      one_link opened (delivering []) same same refl refl refl (λ c. refl) (λ c. refl)

-- ===== src/Composition/Life.antt =====
-- The life of one link among any number of others, from its arrival to the reports of its two tasks.
use h2l.Base.{
  ℕ, ◌≡◌, refl, ap, sym, ◌∙◌, ◌⊎◌, inl, inr, Option, none, some, List, [], ◌++◌, true, false, arith,
}
use mathlib.Core.Path.{subst}
use h2l.Base.Outcome.{panic}
use h2l.Crates.Bitflags.{Bitflags}
use h2l.Crates.Channel.{Channel}
use h2l.Frame.Any.{Frame}
use h2l.Transaction.{Link, Transaction, token_of, transactions}
use h2l.Server.Forward.{Server, find_link, forward_loop}
use h2l.Server.View.{is_attached, is_some, Agrees}
use h2l.Server.Table.{get}
use h2l.Server.Agreement.{forward_loop-Agrees}
use h2l.Server.Handled.{visible_each, any_ends}
use h2l.Server.Isolation.{kept, concerns, forward_loop-Isolates}
use h2l.Link.Race.{State, Reach, reported}
use h2l.Link.Reports.{NoOverlap, LastReport, Reach-IsSound}
use h2l.Composition.Leaving.{Sent, ToldOf, neither_closed, Sent-ToldOf, is_attached-kept}
use h2l.Composition.Lifecycle.{flags-after_reader, flags-writer_first}
use h2l.Link.Flags.{flags, add_flags}
use h2l.Link.Race.{start, later, read_step, write_step, load, store, report}
use h2l.Server.Forward.{read_closed, write_closed}

module _ (bits : Bitflags) where
  lost_flag :
      (final : State) × Reach bits final
      × (final.reader ≡ reported read_closed)
      × (final.writer ≡ reported write_closed)
  unfolding add_flags
  lost_flag = (
    record {
      raw = add_flags bits write_closed 0;
      reader = reported (flags (add_flags bits read_closed 0));
      writer = reported (flags (add_flags bits write_closed 0));
    },
    later
        (later
          (later (later (later (later start (read_step load)) (write_step load)) (read_step store))
            (read_step report))
          (write_step store))
        (write_step report),
    ap reported (flags-after_reader bits),
    ap reported (flags-writer_first bits),
  )

module _ {Sender : Type 0} (bits : Bitflags) (channel : Channel Sender (Transaction Sender))
    (f : Transaction Sender → channel.World → channel.World) where
  open channel use {World}

  -- The loop panics; or the accept loop has ended; or the link is in the table behind the loop exactly
  -- where no report says that both sides are closed, and the application was told of it accordingly.
  Follows :
      Link Sender
      → List Frame
      → ℕ
      → ℕ
      → List ((World → World) × Transaction Sender)
      → Server bits channel
      → Type 0
  Follows link fs v u items s =
      let run = forward_loop bits channel f items s in
      (run.0 ≡ panic)
      ⊎ (any_ends (transactions items) ≡ true)
      ⊎ ((is_some (find_link bits channel (token_of link) run.1) ≡ neither_closed v u)
          × ToldOf (token_of link) (neither_closed v u) fs
              (kept (concerns (token_of link)) run.1.calls))

  Sent-Follows :
      (link : Link Sender) (fs : List Frame) (v u : ℕ)
      (items : List ((World → World) × Transaction Sender)) (s : Server bits channel)
      → Sent (token_of link) link fs v u (kept (concerns (token_of link)) (transactions items))
      → Agrees bits channel s
      → kept (concerns (token_of link)) s.calls ≡ []
      → Follows link fs v u items s
  unfolding find_link Follows
  Sent-Follows link fs v u items s sent agrees fresh =
      let token = token_of link in
      let after = forward_loop bits channel f items s in
      let (first, _, calls, whole) = forward_loop-Isolates bits channel f token items s in
      elim whole [
        | inl stuck ↦ inl stuck
        | inr (inl end) ↦ inr (inl end)
        | inr (inr (good, all)) ↦
            let told : kept (concerns token) after.1.calls
                ≡ visible_each (kept (concerns token) (transactions items)) =
              calls ∙ ap (λ l. l ++ visible_each first) fresh ∙ ap visible_each all in
            let view : ToldOf token (neither_closed v u) fs (kept (concerns token) after.1.calls) =
              subst (ToldOf token (neither_closed v u) fs) (sym told) (
                Sent-ToldOf token link fs v u (kept (concerns token) (transactions items)) refl
                  sent) in
            let (_, _, gone, _) = view in
            let known : is_some (get after.1.links token) ≡ is_attached token after.1.calls false =
              forward_loop-Agrees bits channel f items s agrees token in
            inr (inr (known ∙ sym (is_attached-kept token after.1.calls false) ∙ gone, view))
      ]

  -- The two tasks of a link come to their ends in any order, and their calls of `add_flags` do not
  -- overlap. Of what a server receives, in any order and with whatever the other links, the accept loop
  -- and other tasks do in between, what concerns this link is its arrival, then the frames that it read
  -- and the report of its reader, with the report of its writer anywhere in between; before, neither the
  -- table nor the application knew of the link. Then the forward loop panics; or the accept loop has
  -- ended; or the link is not in the table behind the loop, and of this link the application was told
  -- ATTACHED first, then exactly the DATA and the HEADERS among the frames, in order, and of ATTACHED and
  -- DETACHED last DETACHED.
  pub forward_loop-ToldOf :
      (link : Link Sender) (fs : List Frame) (v u : ℕ) (final : State) (run : Reach bits final)
      (items : List ((World → World) × Transaction Sender)) (s : Server bits channel)
      → NoOverlap bits final run
      → final.reader ≡ reported v
      → final.writer ≡ reported u
      → Sent (token_of link) link fs v u (kept (concerns (token_of link)) (transactions items))
      → Agrees bits channel s
      → kept (concerns (token_of link)) s.calls ≡ []
      → ((forward_loop bits channel f items s).0 ≡ panic)
        ⊎ (any_ends (transactions items) ≡ true)
        ⊎ ((find_link bits channel (token_of link) (forward_loop bits channel f items s).1 ≡ none)
            × ToldOf
                (token_of link)
                false
                fs
                (kept (concerns (token_of link)) (forward_loop bits channel f items s).1.calls))
  unfolding Follows
  forward_loop-ToldOf link fs v u final run items s apart reader writer sent agrees fresh =
      let both : LastReport final.reader final.writer = (Reach-IsSound bits run apart).last in
      let last : LastReport (reported v) (reported u) =
        subst (λ m. LastReport m (reported u)) reader
          (subst (λ n. LastReport final.reader n) writer both) in
      let left : neither_closed v u ≡ false = ground arith in
      let result : Follows link fs v u items s =
        Sent-Follows link fs v u items s sent agrees fresh in
      elim result [
        | inl stuck ↦ inl stuck
        | inr (inl end) ↦ inr (inl end)
        | inr (inr (here, view)) ↦ inr (
            inr (
              none_lem
                  (find_link bits channel (token_of link) (forward_loop bits channel f items s).1)
                  (here ∙ left),
              subst
                  (λ b.
                    ToldOf (token_of link) b fs (
                      kept (concerns (token_of link))
                        (forward_loop bits channel f items s).1.calls))
                  left view,
            ))
      ]
    where
      none_lem : (o : Option (Link Sender)) → is_some o ≡ false → o ≡ none
      none_lem none h = refl
      none_lem (some a) h = ground arith

  -- The two calls of `add_flags` can overlap such that the reader reports READ_CLOSED and the writer
  -- WRITE_CLOSED. A server that receives these in place of two reports of which one says that both sides
  -- are closed, and of this link else only its arrival and frames: the forward loop panics, or the accept
  -- loop has ended, or the link is still in the table behind the loop.
  pub forward_loop-Overlap :
      (link : Link Sender) (fs : List Frame) (items : List ((World → World) × Transaction Sender))
      (s : Server bits channel)
      → Sent
          (token_of link)
          link
          fs
          read_closed
          write_closed
          (kept (concerns (token_of link)) (transactions items))
      → Agrees bits channel s
      → kept (concerns (token_of link)) s.calls ≡ []
      → ((final : State) × Reach bits final
          × (final.reader ≡ reported read_closed)
          × (final.writer ≡ reported write_closed))
        × (((forward_loop bits channel f items s).0 ≡ panic)
            ⊎ (any_ends (transactions items) ≡ true)
            ⊎ (is_some
                  (find_link bits channel (token_of link) (forward_loop bits channel f items s).1)
                ≡ true))
  unfolding Follows
  forward_loop-Overlap link fs items s sent agrees fresh =
      let result : Follows link fs read_closed write_closed items s =
        Sent-Follows link fs read_closed write_closed items s sent agrees fresh in
      (
        lost_flag bits,
        elim result [
          | inl stuck ↦ inl stuck
          | inr (inl end) ↦ inr (inl end)
          | inr (inr (here, view)) ↦ inr (inr here)
        ],
      )

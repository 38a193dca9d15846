-- ===== src/Server/Isolation.antt =====
-- What the application is told of one link, among all the others.
use h2l.Base.{
  ◌==◌, if◌then◌else◌, ◌≡◌, refl, ap, sym, ◌∙◌, ◌⊎◌, inl, inr, none, some, List, [], ◌∷◌, ◌++◌,
  append-nil, Bool, true, false, arith,
}
use h2l.Base.Outcome.{ok, panic}
use h2l.Crates.Bitflags.{Bitflags}
use h2l.Crates.Channel.{Channel}
use h2l.Frame.Any.{
  data_frame, headers, priority, reset, settings, go_away, window_update, continuation, bin_code,
  unknown,
}
use h2l.Transaction.{
  Token, Transaction, bytes, frame, client_changed, link_changed, new_link, server_changed,
  token_of, transactions,
}
use h2l.Server.Forward.{Server, forward_loop}
use h2l.Server.Calls.{visible}
use h2l.Server.Handled.{visible_each, any_ends, any_ends-append, forward_loop-HandlesFirst}

module _ {Sender : Type 0} (p : Transaction Sender → Bool) where
  -- The transactions of a kind.
  abbrev pub kept : List (Transaction Sender) → List (Transaction Sender)
  kept [] = []
  kept (tr ∷ rest) = let more = kept rest in if p tr then tr ∷ more else more

  -- The calls for a transaction of the kind are of the kind, and no others.
  abbrev pub Commutes : Type 0
  Commutes = (tr : Transaction Sender) → kept (visible tr) ≡ (if p tr then visible tr else [])

  pub kept-append : (xs ys : List (Transaction Sender)) → kept (xs ++ ys) ≡ kept xs ++ kept ys
  kept-append [] ys = refl
  kept-append (tr ∷ rest) ys = ground (arith, kept-append rest ys)

  pub kept-visible_each :
      (xs : List (Transaction Sender)) → Commutes → kept (visible_each xs) ≡ visible_each (kept xs)
  kept-visible_each [] h = refl
  kept-visible_each (tr ∷ rest) h =
      kept-append (visible tr) (visible_each rest)
      ∙ ap (λ l. l ++ kept (visible_each rest)) (h tr)
      ∙ ground (arith, kept-visible_each rest h)

module _ {Sender : Type 0} (token : Token) where
  -- A transaction of this link.
  abbrev pub concerns : Transaction Sender → Bool
  concerns (bytes xs (some other)) = other == token
  concerns (frame v (some other)) = other == token
  concerns (client_changed flags other) = other == token
  concerns (link_changed flags other) = other == token
  concerns (new_link link) = token_of link == token
  concerns _ = false

  -- A frame of this link.
  abbrev pub carries : Transaction Sender → Bool
  carries (frame v (some other)) = other == token
  carries _ = false

  pub kept-concerns : Commutes concerns
  kept-concerns (frame (data_frame d) none) = refl
  kept-concerns (frame (headers h) none) = refl
  kept-concerns (frame (data_frame d) (some other)) = ground arith
  kept-concerns (frame (headers h) (some other)) = ground arith
  kept-concerns (frame (settings _) to) = ground arith
  kept-concerns (frame (priority _) to) = ground arith
  kept-concerns (frame (reset _) to) = ground arith
  kept-concerns (frame (go_away _) to) = ground arith
  kept-concerns (frame (window_update _) to) = ground arith
  kept-concerns (frame (continuation _) to) = ground arith
  kept-concerns (frame (bin_code _) to) = ground arith
  kept-concerns (frame unknown to) = ground arith
  kept-concerns (new_link link) = ground arith
  kept-concerns (link_changed flags other) = ground arith
  kept-concerns (server_changed flags) = ground arith
  kept-concerns (bytes xs none) = refl
  kept-concerns (bytes xs (some other)) = ground arith
  kept-concerns (client_changed flags other) = ground arith

  pub kept-carries : Commutes carries
  kept-carries (frame (data_frame d) none) = refl
  kept-carries (frame (headers h) none) = refl
  kept-carries (frame (data_frame d) (some other)) = ground arith
  kept-carries (frame (headers h) (some other)) = ground arith
  kept-carries (frame (settings _) to) = ground arith
  kept-carries (frame (priority _) to) = ground arith
  kept-carries (frame (reset _) to) = ground arith
  kept-carries (frame (go_away _) to) = ground arith
  kept-carries (frame (window_update _) to) = ground arith
  kept-carries (frame (continuation _) to) = ground arith
  kept-carries (frame (bin_code _) to) = ground arith
  kept-carries (frame unknown to) = ground arith
  kept-carries (new_link link) = ground arith
  kept-carries (link_changed flags other) = ground arith
  kept-carries (server_changed flags) = ground arith
  kept-carries (bytes xs none) = refl
  kept-carries (bytes xs (some other)) = refl
  kept-carries (client_changed flags other) = refl

-- A list begins with another.
abbrev pub IsPrefix {ℓ} : {A : Type ℓ} → List A → List A → Type ℓ
IsPrefix {A = A} xs ys = (rest : List A) × (ys ≡ xs ++ rest)

module _ {Sender : Type 0} (bits : Bitflags) (channel : Channel Sender (Transaction Sender))
    (f : Transaction Sender → channel.World → channel.World) where
  open channel use {World}

  -- The calls of a kind are those for a first part of the transactions of the kind; for all of them,
  -- where the loop returns, unless the accept loop has ended.
  abbrev pub Isolates :
      (Transaction Sender → Bool)
      → List ((World → World) × Transaction Sender)
      → Server bits channel
      → Type 0
  Isolates p received s =
      let run = forward_loop bits channel f received s in
      (first : List (Transaction Sender)) × IsPrefix first (kept p (transactions received))
      × (kept p run.1.calls ≡ kept p s.calls ++ visible_each first)
      × ((run.0 ≡ panic)
          ⊎ (any_ends (transactions received) ≡ true)
          ⊎ ((run.0 ≡ ok tt) × (first ≡ kept p (transactions received))))

  pub kept-Isolates :
      (p : Transaction Sender → Bool) (received : List ((World → World) × Transaction Sender))
      (s : Server bits channel)
      → Commutes p
      → Isolates p received s
  kept-Isolates p received s h0 =
      let (seen, rest, t, c, o) = forward_loop-HandlesFirst bits channel f received s in
      let split : kept p (transactions received) ≡ kept p seen ++ kept p rest =
        ap (kept p) t ∙ kept-append p seen rest in
      (
        kept p seen,
        (kept p rest, split),
        ap (kept p) c
            ∙ kept-append p s.calls (visible_each seen)
            ∙ ap (λ l. kept p s.calls ++ l) (kept-visible_each p seen h0),
        elim o [
          | inl (q, inl over) ↦ inr (
              inr (
                q,
                sym (split ∙ ap (λ l. kept p seen ++ kept p l) over ∙ append-nil (kept p seen)),
              ))
          | inl (q, inr end) ↦ inr (inl (ap any_ends t ∙ any_ends-append seen rest end))
          | inr (q, on) ↦ inl q
        ],
      )

  -- Whatever the server receives, in any order and with whatever other tasks do, also where it panics:
  -- what the application is told of a link are the calls for the transactions of that link, in their
  -- order, for a first part of them; and for all of them, unless the loop panics or the accept loop has
  -- ended.
  pub forward_loop-Isolates :
      (token : Token) (received : List ((World → World) × Transaction Sender))
      (s : Server bits channel)
      → Isolates (concerns token) received s
  forward_loop-Isolates token received s =
      kept-Isolates (concerns token) received s (kept-concerns token)

-- ===== src/Composition/Leaving.antt =====
-- What a link sends from its arrival to the reports of its two tasks, and the calls for it.
use h2l.Base.{
  eq→==, ℕ, ◌==◌, if◌then◌else◌, Bool-cases, ◌≡◌, refl, ap, sym, ◌∙◌, inl, inr, Option, none, some,
  List, [], ◌∷◌, ◌++◌, append-nil, Bool, true, false, All, arith,
}
use h2l.Frame.Any.{
  Frame, data_frame, headers, priority, reset, settings, go_away, window_update, continuation,
  bin_code, unknown,
}
use h2l.Transaction.{
  Token, Link, Transaction, bytes, frame, client_changed, link_changed, new_link, server_changed,
  token_of,
}
use h2l.Server.Forward.{attached, read_write_closed}
use h2l.Server.Calls.{visible}
use h2l.Server.View.{is_attached}
use h2l.Server.Handled.{visible_each}
use h2l.Server.Isolation.{kept, concerns, carries, kept-append, kept-visible_each, kept-carries}
use h2l.Composition.Many.{kept-in_frames, visible_each-in_frames}
use h2l.Link.Tasks.{in_frames}
use h2l.Composition.Application.{shown}

-- No report says that both sides are closed.
abbrev pub neither_closed : ℕ → ℕ → Bool
neither_closed v u =
    if u == read_write_closed then false else if v == read_write_closed then false else true

module _ {Sender : Type 0} (token : Token) where
  pub is_attached-kept :
      (calls : List (Transaction Sender)) (before : Bool)
      → is_attached token (kept (concerns token) calls) before ≡ is_attached token calls before
  is_attached-kept [] before = refl
  is_attached-kept (bytes xs none ∷ rest) before = is_attached-kept rest before
  is_attached-kept (bytes xs (some other) ∷ rest) before =
      ground (arith, is_attached-kept rest before)
  is_attached-kept (frame f none ∷ rest) before = is_attached-kept rest before
  is_attached-kept (frame f (some other) ∷ rest) before =
      ground (arith, is_attached-kept rest before)
  is_attached-kept (client_changed flags other ∷ rest) before =
      ground (arith, is_attached-kept rest before)
  is_attached-kept (server_changed flags ∷ rest) before = is_attached-kept rest before
  is_attached-kept (new_link link ∷ rest) before = ground (arith, is_attached-kept rest before)
  is_attached-kept (link_changed flags other ∷ rest) before =
      ground (
        arith,
        is_attached-kept rest true,
        is_attached-kept rest false,
        is_attached-kept rest before,
      )

  kept-kept :
      (l : List (Transaction Sender))
      → kept (carries token) (kept (concerns token) l) ≡ kept (carries token) l
  kept-kept [] = refl
  kept-kept (bytes xs none ∷ rest) = kept-kept rest
  kept-kept (bytes xs (some other) ∷ rest) = ground (arith, kept-kept rest)
  kept-kept (frame f none ∷ rest) = kept-kept rest
  kept-kept (frame f (some other) ∷ rest) = ground (arith, kept-kept rest)
  kept-kept (client_changed flags other ∷ rest) = ground (arith, kept-kept rest)
  kept-kept (server_changed flags ∷ rest) = kept-kept rest
  kept-kept (new_link link ∷ rest) = ground (arith, kept-kept rest)
  kept-kept (link_changed flags other ∷ rest) = ground (arith, kept-kept rest)

  -- A frame, or a report of this link.
  abbrev Lives : Transaction Sender → Type 0
  Lives (frame f to) = Unit {0}
  Lives (link_changed flags other) = other ≡ token
  Lives _ = ⊥

  -- A report says that both sides are closed.
  abbrev closes : Transaction Sender → Bool
  closes (link_changed flags other) = flags == read_write_closed
  closes _ = false

  abbrev any_closed : List (Transaction Sender) → Bool
  any_closed [] = false
  any_closed (tr ∷ rest) = let more = any_closed rest in if closes tr then true else more

  any_closed-insert :
      (xs ys : List (Transaction Sender)) (tr : Transaction Sender)
      → any_closed (xs ++ (tr ∷ ys)) ≡ (if closes tr then true else any_closed (xs ++ ys))
  any_closed-insert [] ys tr = refl
  any_closed-insert (x ∷ xs) ys tr = ground (arith, any_closed-insert xs ys tr)

  Lives-insert :
      (xs ys : List (Transaction Sender)) (tr : Transaction Sender)
      → Lives tr
      → All Lives (xs ++ ys)
      → All Lives (xs ++ (tr ∷ ys))
  Lives-insert [] ys tr h all = (h, all)
  Lives-insert (x ∷ xs) ys tr h all = (all.0, Lives-insert xs ys tr h all.1)

  is_attached-frame :
      (f : Frame) (to : Option Token) (rest : List (Transaction Sender)) (before : Bool)
      → is_attached token (visible (frame f to) ++ rest) before ≡ is_attached token rest before
  is_attached-frame (data_frame d) to rest before = refl
  is_attached-frame (headers h) to rest before = refl
  is_attached-frame (settings _) to rest before = refl
  is_attached-frame (priority _) to rest before = refl
  is_attached-frame (reset _) to rest before = refl
  is_attached-frame (go_away _) to rest before = refl
  is_attached-frame (window_update _) to rest before = refl
  is_attached-frame (continuation _) to rest before = refl
  is_attached-frame (bin_code _) to rest before = refl
  is_attached-frame unknown to rest before = refl

  is_attached-visible_each :
      (l : List (Transaction Sender)) (before : Bool)
      → All Lives l
      → is_attached token (visible_each l) before ≡ (if any_closed l then false else before)
  is_attached-visible_each [] before h = refl
  is_attached-visible_each (frame f to ∷ rest) before h =
      is_attached-frame f to (visible_each rest) before ∙ is_attached-visible_each rest before h.1
  is_attached-visible_each (link_changed flags other ∷ rest) before h =
      let same : (other == token) ≡ true = ground arith in
      elim (Bool-cases (flags == read_write_closed)) [
        | inl e ↦ rw (e, same) (is_attached-visible_each rest false h.1 ∙ ground arith)
        | inr e ↦ rw e (is_attached-visible_each rest before h.1)
      ]
  is_attached-visible_each (bytes xs to ∷ rest) before h = absurd h.0
  is_attached-visible_each (client_changed flags other ∷ rest) before h = absurd h.0
  is_attached-visible_each (server_changed flags ∷ rest) before h = absurd h.0
  is_attached-visible_each (new_link link ∷ rest) before h = absurd h.0

module _ (Sender : Type 0) (token : Token) where
  in_frames-Lives :
      (fs : List Frame) (v : ℕ)
      → All (Lives {Sender = Sender} token) (in_frames token fs ++ (link_changed v token ∷ []))
  in_frames-Lives [] v = (refl, tt)
  in_frames-Lives (f ∷ fs) v = (tt, in_frames-Lives fs v)

  any_closed-in_frames :
      (fs : List Frame) (v : ℕ)
      → any_closed {Sender = Sender} token (in_frames token fs ++ (link_changed v token ∷ []))
        ≡ (if v == read_write_closed then true else false)
  any_closed-in_frames [] v = refl
  any_closed-in_frames (f ∷ fs) v = any_closed-in_frames fs v

module _ {Sender : Type 0} (token : Token) where
  -- What a link sends from its arrival on: the frames that it read and the report of its reader, with
  -- the report of its writer anywhere in between.
  abbrev pub Sent : Link Sender → List Frame → ℕ → ℕ → List (Transaction Sender) → Type 0
  Sent link fs v u l =
      (xs : List (Transaction Sender)) × (ys : List (Transaction Sender)) × (l
        ≡ new_link link ∷ (xs ++ (link_changed u token ∷ ys)))
      × (xs ++ ys ≡ in_frames token fs ++ (link_changed v token ∷ []))

  -- The calls for them: first ATTACHED, with the DATA and the HEADERS of these frames, and it is
  -- ATTACHED that comes last of ATTACHED and DETACHED exactly where the link stays.
  abbrev pub ToldOf : Bool → List Frame → List (Transaction Sender) → Type 0
  ToldOf stays fs calls =
      (rest : List (Transaction Sender)) × (calls ≡ link_changed attached token ∷ rest)
      × (is_attached token calls false ≡ stays)
      × (kept (carries token) calls ≡ shown token fs)

  pub Sent-ToldOf :
      (link : Link Sender) (fs : List Frame) (v u : ℕ) (l : List (Transaction Sender))
      → token_of link ≡ token
      → Sent link fs v u l
      → ToldOf (neither_closed v u) fs (visible_each l)
  Sent-ToldOf link fs v u l same (xs, ys, e, split) =
      let here = in_frames-Lives Sender token fs v in
      let both = any_closed-in_frames Sender token fs v in
      let lives : All (Lives token) (xs ++ ys) = rw split here in
      let reader : any_closed token (xs ++ ys) ≡ (if v == read_write_closed then true else false) =
        rw split both in
      let closed : (if any_closed token (xs ++ (link_changed u token ∷ ys)) then false else true)
          ≡ neither_closed v u =
        ap (λ b. if b then false else true) (any_closed-insert token xs ys (link_changed u token))
        ∙ ground arith in
      rw e (
        visible_each (xs ++ (link_changed u token ∷ ys)),
        rw same refl,
        rw same (
            ap
              (λ b.
                is_attached token (visible_each (xs ++ (link_changed u token ∷ ys)))
                  (if b then true else false))
              (eq→== token token refl)
            ∙ is_attached-visible_each token (xs ++ (link_changed u token ∷ ys)) true
                (Lives-insert token xs ys (link_changed u token) refl lives)
            ∙ closed),
        kept-visible_each (carries token) (new_link link ∷ (xs ++ (link_changed u token ∷ ys)))
              (kept-carries token)
            ∙ ap visible_each (
                kept-append (carries token) xs (link_changed u token ∷ ys)
                ∙ sym (kept-append (carries token) xs ys)
                ∙ ap (kept (carries token)) split
                ∙ kept-in_frames token fs (link_changed v token ∷ [])
                ∙ append-nil (in_frames token fs))
            ∙ visible_each-in_frames token fs,
      )

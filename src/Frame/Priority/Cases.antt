-- ===== src/Frame/Priority/Cases.antt =====
-- What the load of a PRIORITY frame makes of any payload.
use h2l.Base.{
  ℕ, ◌+◌, ◌*◌, ◌%◌, ◌<◌, ◌==◌, leb, ◌≡◌, ◌≢◌, refl, sym, ap, ◌∙◌, ◌⊎◌, inl, inr, List, [], ◌∷◌,
  ◌++◌, arith, length, IsByte, IsBytes, Bool-cases, ==→eq, if◌then◌else◌,
}
use h2l.Base.Word.{be_bytes_4, from_be_bytes}
use h2l.Base.Outcome.{ok, err}
use h2l.Frame.Error.{invalid_dependency_id, invalid_payload_length}
use h2l.Frame.Head.{Head}
use h2l.Frame.Priority.{StreamDependency, load_dependency, load}
use h2l.Frame.Priority.RoundTrip.{payload_of, load_self, load_dependency-payload_of}

be_bytes_4-from_be_bytes :
    (a b c d : ℕ)
    → IsByte a
    → IsByte b
    → IsByte c
    → IsByte d
    → be_bytes_4 (from_be_bytes a b c d) ≡ a ∷ b ∷ c ∷ d ∷ []
be_bytes_4-from_be_bytes a b c d ha hb hc hd = ground arith

-- The dependency that five bytes say.
abbrev dependency_of : ℕ → ℕ → StreamDependency
dependency_of w weight = record {
  dependency_id = record { id = w % 0x8000_0000 };
  weight = weight;
  is_exclusive = leb 0x8000_0000 w;
}

word_parts :
    (w : ℕ)
    → w < 0x1_0000_0000
    → w % 0x8000_0000 + (if leb 0x8000_0000 w then 1 else 0) * 0x8000_0000 ≡ w
word_parts w h = ground arith

payload_of-dependency_of :
    (a b c d e : ℕ)
    → IsByte a
    → IsByte b
    → IsByte c
    → IsByte d
    → a ∷ b ∷ c ∷ d ∷ e ∷ [] ≡ payload_of (dependency_of (from_be_bytes a b c d) e)
payload_of-dependency_of a b c d e ha hb hc hd = sym (
    ap (λ w. be_bytes_4 w ++ (e ∷ [])) (word_parts (from_be_bytes a b c d) (omega arith))
    ∙ ap (λ bs. bs ++ (e ∷ [])) (be_bytes_4-from_be_bytes a b c d ha hb hc hd))

-- The payload is the layout of a dependency, which is refused exactly if it is the stream itself.
abbrev pub Loads : Head → List ℕ → Type 0
Loads head payload =
    (d : StreamDependency) × (payload ≡ payload_of d)
    × (((d.dependency_id.id ≡ head.stream_id.id) × (load head payload ≡ err invalid_dependency_id))
        ⊎ ((d.dependency_id.id ≢ head.stream_id.id)
            × (load head payload ≡ ok (record { stream_id = head.stream_id; dependency = d }))))

load-payload_of-Loads :
    (head : Head) (d : StreamDependency) (payload : List ℕ)
    → d.dependency_id.id < 0x8000_0000
    → payload ≡ payload_of d
    → Loads head payload
unfolding load
load-payload_of-Loads head d payload h e =
    elim (Bool-cases (d.dependency_id.id == head.stream_id.id)) [
      | inl same ↦ (d, e, inl (==→eq _ _ same, rw e (load_self head d h (==→eq _ _ same))))
      | inr other ↦ (d, e, inr (ground arith, rw (e, load_dependency-payload_of d h, other) refl))
    ]

-- A payload that has not five bytes is refused. Any five bytes are the layout of a dependency, which
-- is refused exactly if it names the stream of the header, and else is loaded under that stream.
pub load_priority_cases :
    (head : Head) (payload : List ℕ)
    → IsBytes payload
    → ((length payload ≢ 5) × (load head payload ≡ err invalid_payload_length)) ⊎ Loads head payload
unfolding load load_dependency
load_priority_cases head (a ∷ b ∷ c ∷ d ∷ e ∷ []) (ha, (hb, (hc, (hd, (he, h))))) = inr (
    load-payload_of-Loads head (dependency_of (from_be_bytes a b c d) e) _ (omega arith)
      (payload_of-dependency_of a b c d e ha hb hc hd))
load_priority_cases head [] h = inl (omega arith, refl)
load_priority_cases head (a ∷ []) h = inl (omega arith, refl)
load_priority_cases head (a ∷ b ∷ []) h = inl (omega arith, refl)
load_priority_cases head (a ∷ b ∷ c ∷ []) h = inl (omega arith, refl)
load_priority_cases head (a ∷ b ∷ c ∷ d ∷ []) h = inl (omega arith, refl)
load_priority_cases head (a ∷ b ∷ c ∷ d ∷ e ∷ f ∷ rest) h = inl (omega arith, ground arith)

-- ===== src/Utils/Split/Laws.antt =====
-- Splitting is the inverse of joining with separators.
use nametag.Common.{
  ℕ, ◌≡◌, ◌≢◌, refl, sym, ap, ◌∙◌, true, false, inl, inr, List, [], ◌∷◌, ◌++◌, append-nil,
  append_assoc, ◌==◌, All, arith, Bool-cases,
}
use nametag.Common.Bytes.{Bytes}
use nametag.Utils.Split.{split_from, split}

-- The tokens with one separator between any two.
abbrev pub join : ℕ → List Bytes → Bytes
join sep [] = []
join sep (token ∷ []) = token
join sep (token ∷ next ∷ tokens) = token ++ sep ∷ join sep (next ∷ tokens)

-- No byte of the text is the separator.
abbrev pub IsToken : ℕ → Bytes → Type 0
IsToken sep = All (λ c. (c == sep) ≡ false)

append-IsToken :
    (sep : ℕ) (xs : Bytes) (c : ℕ)
    → IsToken sep xs
    → (c == sep) ≡ false
    → IsToken sep (xs ++ c ∷ [])
append-IsToken sep [] c h k = (k, tt)
append-IsToken sep (x ∷ xs) c h k = (h.0, append-IsToken sep xs c h.1 k)

here : (sep : ℕ) → (sep == sep) ≡ true
here sep = ground arith

same : (c sep : ℕ) → (c == sep) ≡ true → c ≡ sep
same c sep e = ground arith

-- A token is read up to the separator or the end.
split_from-token :
    (sep : ℕ) (front token rest : Bytes)
    → IsToken sep token
    → split_from sep front (token ++ rest) ≡ split_from sep (front ++ token) rest
unfolding split_from
split_from-token sep front [] rest h =
    ap (λ (x : Bytes). split_from sep x rest) (sym (append-nil front))
split_from-token sep front (c ∷ token) rest h =
    rw (split_from, h.0)
      (split_from-token sep (front ++ c ∷ []) token rest h.1
        ∙ ap (λ (x : Bytes). split_from sep x rest) (append_assoc front (c ∷ []) token))

split_from-join :
    (sep : ℕ) (token : Bytes) (tokens : List Bytes)
    → All (IsToken sep) (token ∷ tokens)
    → split_from sep [] (join sep (token ∷ tokens)) ≡ token ∷ tokens
unfolding split_from
split_from-join sep token [] h =
    ap (split_from sep []) (sym (append-nil token)) ∙ split_from-token sep [] token [] h.0
split_from-join sep token (next ∷ tokens) h =
    split_from-token sep [] token (sep ∷ join sep (next ∷ tokens)) h.0
    ∙ rw (split_from, here sep)
        (ap (λ (r : List Bytes). token ∷ r) (split_from-join sep next tokens h.1))

split-split_from : (sep : ℕ) (text : Bytes) → text ≢ [] → split sep text ≡ split_from sep [] text
unfolding split
split-split_from sep [] h = absurd (h refl)
split-split_from sep (c ∷ text) h = refl

-- Tokens without a separator, joined to a text that is not empty, are what the text is split into.
pub split-join :
    (sep : ℕ) (token : Bytes) (tokens : List Bytes)
    → All (IsToken sep) (token ∷ tokens)
    → join sep (token ∷ tokens) ≢ []
    → split sep (join sep (token ∷ tokens)) ≡ token ∷ tokens
split-join sep token tokens h full =
    split-split_from sep (join sep (token ∷ tokens)) full ∙ split_from-join sep token tokens h

join-cons :
    (sep : ℕ) (token : Bytes) (tokens : List Bytes)
    → tokens ≢ []
    → join sep (token ∷ tokens) ≡ token ++ sep ∷ join sep tokens
join-cons sep token [] h = absurd (h refl)
join-cons sep token (next ∷ tokens) h = refl

split_from-nonempty : (sep : ℕ) (token text : Bytes) → split_from sep token text ≢ []
unfolding split_from
split_from-nonempty sep token [] = λ e. cc
split_from-nonempty sep token (c ∷ text) = elim (Bool-cases (c == sep)) [
  | inl e ↦ rw (split_from, e) (λ h. cc)
  | inr e ↦ rw (split_from, e) (split_from-nonempty sep (token ++ c ∷ []) text)
]

join-split_from :
    (sep : ℕ) (token text : Bytes)
    → IsToken sep token
    → (join sep (split_from sep token text) ≡ token ++ text)
      × All (IsToken sep) (split_from sep token text)
unfolding split_from
join-split_from sep token [] h = (sym (append-nil token), (h, tt))
join-split_from sep token (c ∷ text) h = elim (Bool-cases (c == sep)) [
  | inl e ↦
      let (joined, all) = join-split_from sep [] text tt in
      rw (split_from, e)
        (
          join-cons sep token (split_from sep [] text) (split_from-nonempty sep [] text)
              ∙ ap (λ (r : Bytes). token ++ r) (rw (joined, same c sep e)),
          (h, all),
        )
  | inr e ↦
      let (joined, all) =
        join-split_from sep (token ++ c ∷ []) text (append-IsToken sep token c h e) in
      rw (split_from, e) (joined ∙ append_assoc token (c ∷ []) text, all)
]

-- The tokens of a text have no separator in them, and joined they are the text.
pub join-split :
    (sep : ℕ) (text : Bytes)
    → (join sep (split sep text) ≡ text) × All (IsToken sep) (split sep text)
unfolding split
join-split sep [] = (refl, tt)
join-split sep (c ∷ text) = join-split_from sep [] (c ∷ text) tt

-- ===== src/Features/Containers/Runs.antt =====
-- What the tests and the loops of `czech_add_containers` find: runs of entities that follow one another.
use nametag.Common.{
  ℕ, zero, suc, ◌+◌, ◌≤◌, ◌<◌, ◌≡◌, ◌≢◌, refl, subst, true, false, ◌&&◌, ◌⊎◌, inl, inr, Bool-cases,
  Option, none, some, List, [], ◌∷◌, ◌++◌, replicate, ltb, arith,
}
use nametag.Common.Bytes.{Bytes, codes, same_bytes, same_bytes_iff}
use nametag.Features.Containers.{until, adjoins, has_type, skip, container, starts, next_of}
use nametag.Ner.Spans.{NamedEntity}

-- Behind `e`, the list begins with entities of the types, each where the one before it ends. The last
-- of them is `last_one`, and `rest` is behind it.
abbrev pub IsRun :
    NamedEntity → List NamedEntity → List Bytes → NamedEntity → List NamedEntity → Type 0
IsRun e es [] last_one rest = (last_one ≡ e) × (rest ≡ es)
IsRun e [] (t ∷ ts) last_one rest = ⊥
IsRun e (f ∷ es) (t ∷ ts) last_one rest =
    (f.start ≡ until e) × (f.type ≡ t) × IsRun f es ts last_one rest

-- The first entity behind `e` begins where `e` ends, and has the type.
abbrev pub HasNext : Bytes → NamedEntity → List NamedEntity → Type 0
HasNext type e [] = ⊥
HasNext type e (f ∷ es) = (f.start ≡ until e) × (f.type ≡ type)

-- The entity before `e` has another type, or ends before `e`; or there is none.
abbrev pub Begins : Bytes → Option NamedEntity → NamedEntity → Type 0
Begins type none e = Unit
Begins type (some before) e = (before.start + before.length < e.start) ⊎ (before.type ≢ type)

-- One container, of the type and from the first word of `e` to the last word of `last_one`.
abbrev pub IsCover : Bytes → NamedEntity → NamedEntity → List NamedEntity → Type 0
IsCover type e last_one cs =
    (c : NamedEntity) × (cs ≡ c ∷ [])
    × (c.type ≡ type)
    × (c.start ≡ e.start)
    × (c.start + c.length ≡ last_one.start + last_one.length)

-- Behind `e`, `n` names, and surnames, one at least.
abbrev pub IsNames :
    NamedEntity → List NamedEntity → ℕ → ℕ → NamedEntity → List NamedEntity → Type 0
IsNames e es n m = IsRun e es (replicate n (codes "pf") ++ codes "ps" ∷ replicate m (codes "ps"))

pub IsRun-append :
    (e : NamedEntity) (es : List NamedEntity) (ts us : List Bytes) (j : NamedEntity)
    (rest : List NamedEntity) (l : NamedEntity) (end : List NamedEntity)
    → IsRun e es ts j rest
    → IsRun j rest us l end
    → IsRun e es (ts ++ us) l end
IsRun-append e es [] us j rest l end (same, left) h =
    subst (λ x. IsRun x es us l end) same (subst (λ x. IsRun j x us l end) left h)
IsRun-append e [] (t ∷ ts) us j rest l end none_left h = absurd none_left
IsRun-append e (f ∷ es) (t ∷ ts) us j rest l end (at, type, run) h =
    (at, type, IsRun-append f es ts us j rest l end run h)

pub IsRun-start :
    (e : NamedEntity) (es : List NamedEntity) (ts : List Bytes) (l : NamedEntity)
    (rest : List NamedEntity)
    → IsRun e es ts l rest
    → e.start ≤ until l
IsRun-start e es [] l rest (same, left) = rw same (omega arith)
IsRun-start e [] (t ∷ ts) l rest none_left = absurd none_left
IsRun-start e (f ∷ es) (t ∷ ts) l rest (at, type, run) =
    omega (arith, IsRun-start f es ts l rest run)

pub adjoins-IsRun :
    (type : Bytes) (e f : NamedEntity) (es : List NamedEntity)
    → (adjoins e f && has_type type f) ≡ true
    → IsRun e (f ∷ es) (type ∷ []) f es
adjoins-IsRun type e f es h =
    (ground arith, (same_bytes_iff f.type type).0 (ground arith), (refl, refl))

pub has_type-next :
    (type : Bytes) (e f : NamedEntity)
    → f.start ≡ until e
    → f.type ≡ type
    → (adjoins e f && has_type type f) ≡ true
has_type-next type e f at same =
    let there = (same_bytes_iff f.type type).1 same in ground (arith, at, there)

pub skip-IsRun :
    (type : Bytes) (e : NamedEntity) (es : List NamedEntity)
    → let r = skip type e es in
      (n : ℕ) × IsRun e es (replicate n type) r.0 r.1 × (HasNext type r.0 r.1 → ⊥)
unfolding skip
skip-IsRun type e [] = (0, (refl, refl), λ no. no)
skip-IsRun type e (f ∷ es) = elim (Bool-cases (adjoins e f && has_type type f)) [
  | inl there ↦
      let (n, run, stops) = skip-IsRun type f es in
      let (at, same, _) = adjoins-IsRun type e f es there in
      rw there (suc n, (at, same, run), stops)
  | inr apart ↦ rw apart (
    0,
    (refl, refl),
    λ (at, same). absurd (ground (arith, apart, has_type-next type e f at same)),
  )
]

pub next_of-cases :
    (type : Bytes) (e : NamedEntity) (es : List NamedEntity)
    → ((next_of type e es ≡ none) × (HasNext type e es → ⊥))
      ⊎ ((f : NamedEntity) × (behind : List NamedEntity) × (next_of type e es ≡ some (f, behind))
          × IsRun e es (type ∷ []) f behind)
next_of-cases type e [] = inl (refl, λ no. no)
next_of-cases type e (g ∷ es) = elim (Bool-cases (adjoins e g && has_type type g)) [
  | inl there ↦ inr (g, es, rw there, adjoins-IsRun type e g es there)
  | inr apart ↦
      inl (rw apart, λ (at, same). absurd (ground (arith, apart, has_type-next type e g at same)))
]

pub starts-Begins :
    (type : Bytes) (before : Option NamedEntity) (e : NamedEntity)
    → starts type before e ≡ true
    → Begins type before e
starts-Begins type none e h = tt
starts-Begins type (some before) e h = elim (Bool-cases (ltb (until before) e.start)) [
  | inl apart ↦ inl (ground (arith, apart))
  | inr close ↦
      inr (λ same. absurd (ground (arith, h, close, (same_bytes_iff before.type type).1 same)))
]

Begins-starts :
    (type : Bytes) (before : Option NamedEntity) (e : NamedEntity)
    → Begins type before e
    → starts type before e ≡ true
Begins-starts type none e h = refl
Begins-starts type (some before) e (inl apart) = ground (arith, apart)
Begins-starts type (some before) e (inr other) = elim (Bool-cases (has_type type before)) [
  | inl same ↦ absurd (other ((same_bytes_iff before.type type).0 same))
  | inr differs ↦ ground (arith, differs)
]

-- Both tests of the code, from what they mean.
pub first-test :
    (type also : Bytes) (before : Option NamedEntity) (e : NamedEntity)
    → (has_type type e && starts also before e) ≡ false
    → e.type ≡ type
    → Begins also before e
    → ⊥
first-test type also before e h same begins =
    ground (arith, h, (same_bytes_iff e.type type).1 same, Begins-starts also before e begins)

pub has_type-starts :
    (type also : Bytes) (before : Option NamedEntity) (e : NamedEntity)
    → (has_type type e && starts also before e) ≡ true
    → (e.type ≡ type) × Begins also before e
has_type-starts type also before e h = (
  (same_bytes_iff e.type type).0 (ground (arith, h)),
  starts-Begins also before e (ground (arith, h)),
)

pub container-IsCover :
    (type : Bytes) (e : NamedEntity) (es : List NamedEntity) (types : List Bytes) (l : NamedEntity)
    (rest : List NamedEntity)
    → IsRun e es types l rest
    → IsCover type e l (container type e l ∷ [])
container-IsCover type e es types l rest run =
    (container type e l, refl, refl, refl, omega (arith, IsRun-start e es types l rest run))

surname-no_name : (f : NamedEntity) → f.type ≡ codes "ps" → has_type (codes "pf") f ≡ false
unfolding same_bytes
surname-no_name f e = rw e refl

-- If surnames follow names, `skip` stops in front of them.
pub skip-HasNext :
    (e : NamedEntity) (es : List NamedEntity) (n m : ℕ) (l : NamedEntity) (rest : List NamedEntity)
    → IsNames e es n m l rest
    → let r = skip (codes "pf") e es in HasNext (codes "ps") r.0 r.1
unfolding skip
skip-HasNext e [] zero m l rest h = absurd h
skip-HasNext e [] (suc n) m l rest h = absurd h
skip-HasNext e (f ∷ es) zero m l rest (at, same, run) =
    let apart : (adjoins e f && has_type (codes "pf") f) ≡ false =
      ground (arith, surname-no_name f same) in
    rw apart (at, same)
skip-HasNext e (f ∷ es) (suc n) m l rest (at, same, run) =
    rw (has_type-next (codes "pf") e f at same) (skip-HasNext f es n m l rest run)

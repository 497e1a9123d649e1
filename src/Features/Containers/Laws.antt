-- ===== src/Features/Containers/Laws.antt =====
-- Containers are added exactly where names or dates stand, and the entities stay.
use nametag.Common.{
  ℕ, ◌≤◌, ◌≡◌, refl, ap, ◌∙◌, subst, ◌&&◌, ◌⊎◌, inl, inr, Bool-cases, Option, none, some, List, [],
  ◌∷◌, ◌++◌, replicate, length, length-append, ltb, arith,
}
use nametag.Common.Bytes.{codes, same_bytes_iff}
use nametag.Features.Containers.{
  has_type, skip, starts, person, day, month_only, containers_from, add_containers,
}
use nametag.Ner.Spans.{NamedEntity}
use nametag.Features.Containers.Runs.{
  IsRun, HasNext, Begins, IsCover, IsNames, IsRun-append, skip-IsRun, next_of-cases, first-test,
  has_type-starts, container-IsCover, skip-HasNext,
}

-- The persons in front of `e`: one if `e` is the first of names with surnames behind them, up to the
-- last of these surnames, and none otherwise.
abbrev pub ArePersons :
    Option NamedEntity → NamedEntity → List NamedEntity → List NamedEntity → Type 0
ArePersons before e es cs =
    ((n : ℕ) × (m : ℕ) × (last_one : NamedEntity) × (rest : List NamedEntity) × (e.type
        ≡ codes "pf")
      × Begins (codes "pf") before e
      × IsNames e es n m last_one rest
      × (HasNext (codes "ps") last_one rest → ⊥)
      × IsCover (codes "P") e last_one cs)
    ⊎ ((cs ≡ [])
        × (e.type ≡ codes "pf"
            → Begins (codes "pf") before e
            → (n m : ℕ) (last_one : NamedEntity) (rest : List NamedEntity)
            → IsNames e es n m last_one rest
            → ⊥))

-- The dates in front of a day: one if a month is behind it, up to the year if one is behind that.
abbrev pub AreDays : NamedEntity → List NamedEntity → List NamedEntity → Type 0
AreDays e es cs =
    ((last_one : NamedEntity) × (rest : List NamedEntity) × (e.type ≡ codes "td")
      × (IsRun e es (codes "tm" ∷ codes "ty" ∷ []) last_one rest
          ⊎ (IsRun e es (codes "tm" ∷ []) last_one rest × (HasNext (codes "ty") last_one rest → ⊥)))
      × IsCover (codes "T") e last_one cs)
    ⊎ ((cs ≡ []) × (e.type ≡ codes "td" → HasNext (codes "tm") e es → ⊥))

-- The dates in front of a month with no day before it: one if a year is behind it.
abbrev pub AreMonths :
    Option NamedEntity → NamedEntity → List NamedEntity → List NamedEntity → Type 0
AreMonths before e es cs =
    ((last_one : NamedEntity) × (rest : List NamedEntity) × (e.type ≡ codes "tm")
      × Begins (codes "td") before e
      × IsRun e es (codes "ty" ∷ []) last_one rest
      × IsCover (codes "T") e last_one cs)
    ⊎ ((cs ≡ [])
        × (e.type ≡ codes "tm" → Begins (codes "td") before e → HasNext (codes "ty") e es → ⊥))

-- The entities behind `before` in their order, each behind its persons and dates.
abbrev pub IsInterleaved : Option NamedEntity → List NamedEntity → List NamedEntity → Type 0
IsInterleaved before [] result = result ≡ []
IsInterleaved before (e ∷ es) result =
    (persons : List NamedEntity) × (days : List NamedEntity) × (months : List NamedEntity)
    × (behind : List NamedEntity) × (result ≡ persons ++ (days ++ (months ++ e ∷ behind)))
    × ArePersons before e es persons
    × AreDays e es days
    × AreMonths before e es months
    × IsInterleaved (some e) es behind

person-ArePersons :
    (before : Option NamedEntity) (e : NamedEntity) (es : List NamedEntity)
    → ArePersons before e es (person before e es)
unfolding person
person-ArePersons before e es =
    elim (Bool-cases (has_type (codes "pf") e && starts (codes "pf") before e)) [
      | inr other ↦ rw other (
          inr (
            refl,
            λ same begins n m l rest run.
                first-test (codes "pf") (codes "pf") before e other same begins,
          ))
      | inl first ↦
          let (j, rest) = skip (codes "pf") e es in
          let (n, names, _) = skip-IsRun (codes "pf") e es in
          let (name, begins) = has_type-starts (codes "pf") (codes "pf") before e first in
          elim (next_of-cases (codes "ps") j rest) [
            | inl (none_there, no_surname) ↦
                rw (first, none_there)
                  (inr (
                    refl,
                    λ _ _ n' m' l' end' run. no_surname (skip-HasNext e es n' m' l' end' run),
                  ))
            | inr (surname, behind, there, one_run) ↦
                let (m, more, stops) = skip-IsRun (codes "ps") surname behind in
                let (l, end) = skip (codes "ps") surname behind in
                let run =
                  IsRun-append e es (replicate n (codes "pf"))
                    (codes "ps" ∷ replicate m (codes "ps")) j rest l end names
                    (IsRun-append j rest (codes "ps" ∷ []) (replicate m (codes "ps")) surname behind
                      l end one_run more) in
                rw (first, there)
                  (inl (
                    n,
                    m,
                    l,
                    end,
                    name,
                    begins,
                    run,
                    stops,
                    container-IsCover (codes "P") e es
                        (replicate n (codes "pf") ++ codes "ps" ∷ replicate m (codes "ps")) l end
                        run,
                  ))
          ]
    ]

day-AreDays : (e : NamedEntity) (es : List NamedEntity) → AreDays e es (day e es)
unfolding day
day-AreDays e es = elim (Bool-cases (has_type (codes "td") e)) [
  | inr other ↦
      rw other
        (inr (refl, λ same _. ground (arith, other, (same_bytes_iff e.type (codes "td")).1 same)))
  | inl first ↦
      let same = (same_bytes_iff e.type (codes "td")).0 first in
      elim (next_of-cases (codes "tm") e es) [
        | inl (none_there, no_month) ↦ rw (first, none_there) (inr (refl, λ _. no_month))
        | inr (month, behind, there, run) ↦ elim (next_of-cases (codes "ty") month behind) [
          | inl (no_year, stops) ↦
              rw (first, there, no_year)
                (inl (
                  month,
                  behind,
                  same,
                  inr (run, stops),
                  container-IsCover (codes "T") e es (codes "tm" ∷ []) month behind run,
                ))
          | inr (year, end, also, year_run) ↦
              let both =
                IsRun-append e es (codes "tm" ∷ []) (codes "ty" ∷ []) month behind year end run
                  year_run in
              rw (first, there, also)
                (inl (
                  year,
                  end,
                  same,
                  inl both,
                  container-IsCover (codes "T") e es (codes "tm" ∷ codes "ty" ∷ []) year end both,
                ))
        ]
      ]
]

month_only-AreMonths :
    (before : Option NamedEntity) (e : NamedEntity) (es : List NamedEntity)
    → AreMonths before e es (month_only before e es)
unfolding month_only
month_only-AreMonths before e es =
    elim (Bool-cases (has_type (codes "tm") e && starts (codes "td") before e)) [
      | inr other ↦ rw other (
          inr (
            refl,
            λ same begins _. first-test (codes "tm") (codes "td") before e other same begins,
          ))
      | inl first ↦
          let (same, begins) = has_type-starts (codes "tm") (codes "td") before e first in
          elim (next_of-cases (codes "ty") e es) [
            | inl (none_there, no_year) ↦ rw (first, none_there) (inr (refl, λ _ _. no_year))
            | inr (year, behind, there, run) ↦
                rw (first, there)
                  (inl (
                    year,
                    behind,
                    same,
                    begins,
                    run,
                    container-IsCover (codes "T") e es (codes "ty" ∷ []) year behind run,
                  ))
          ]
    ]

containers_from-IsInterleaved :
    (before : Option NamedEntity) (es : List NamedEntity)
    → IsInterleaved before es (containers_from before es)
unfolding containers_from
containers_from-IsInterleaved before [] = refl
containers_from-IsInterleaved before (e ∷ es) = (
  person before e es,
  day e es,
  month_only before e es,
  containers_from (some e) es,
  refl,
  person-ArePersons before e es,
  day-AreDays e es,
  month_only-AreMonths before e es,
  containers_from-IsInterleaved (some e) es,
)

length-containers_from :
    (before : Option NamedEntity) (es : List NamedEntity)
    → length es ≤ length (containers_from before es)
unfolding containers_from
length-containers_from before [] = omega arith
length-containers_from before (e ∷ es) =
    let p = person before e es in
    let d = day e es in
    let m = month_only before e es in
    let behind = e ∷ containers_from (some e) es in
    omega (
      arith,
      length-append p (d ++ (m ++ behind)),
      length-append d (m ++ behind),
      length-append m behind,
      length-containers_from (some e) es,
    )

no_more : (xs ys : List NamedEntity) → length (xs ++ ys) ≤ length ys → xs ++ ys ≡ ys
no_more [] ys h = refl
no_more (x ∷ xs) ys h = absurd (omega (arith, h, length-append xs ys))

-- If nothing is added, the buffer is the vector of entities.
containers_from-same :
    (before : Option NamedEntity) (es : List NamedEntity)
    → length (containers_from before es) ≤ length es
    → containers_from before es ≡ es
unfolding containers_from
containers_from-same before [] h = refl
containers_from-same before (e ∷ es) h =
    let p = person before e es in
    let d = day e es in
    let m = month_only before e es in
    let behind = e ∷ containers_from (some e) es in
    let first = length-append p (d ++ (m ++ behind)) in
    let second = length-append d (m ++ behind) in
    let third = length-append m behind in
    let least = length-containers_from (some e) es in
    no_more p (d ++ (m ++ behind)) (omega (arith, h, first, second, third, least))
    ∙ no_more d (m ++ behind) (omega (arith, h, first, second, third, least))
    ∙ no_more m behind (omega (arith, h, first, second, third, least))
    ∙ ap (λ (x : List NamedEntity). e ∷ x)
        (containers_from-same (some e) es (omega (arith, h, first, second, third, least)))

-- All entities stay, in their order. In front of a name that is not behind another name, there is one
-- `P` exactly if names and then surnames follow one another, each where the one before it ends, and it
-- covers them from that name to the last of these surnames. In front of a day with a month behind it
-- there is one `T`, to the year if one is behind the month, and to the month otherwise; and in front
-- of a month that is not behind a day, one `T` exactly if a year is behind it, to that year. Nothing
-- else is added. (An entity is behind another if that has the type and does not end before it.)
pub add_containers-IsInterleaved :
    (es : List NamedEntity) → IsInterleaved none es (add_containers es)
unfolding add_containers
add_containers-IsInterleaved es =
    elim (Bool-cases (ltb (length es) (length (containers_from none es)))) [
      | inl more ↦ rw more (containers_from-IsInterleaved none es)
      | inr same ↦ rw same (
          subst (IsInterleaved none es) (containers_from-same none es (ground (arith, same)))
            (containers_from-IsInterleaved none es))
    ]

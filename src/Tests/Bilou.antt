-- ===== src/Tests/Bilou.antt =====
-- The decoder of src/bilou, with numbers in the place of `double`.
use nametag.Common.{
  ℕ, ◌*◌, ◌/◌, ◌≤◌, ◌<◌, ◌≡◌, refl, true, false, none, some, List, [], ◌∷◌, length, ltb, ltb→lt,
  le→ltb, arith,
}
use native.Mathlib.Nat.{mul-le-mul_right, le-div_iff_mul-le, div-mul-le_self, div_self, le_trans}
use nametag.Bilou.Entity.{
  BilouType, begin, last, outside, unit, total, get_bilou, get_entity, from_bilou_entity,
}
use nametag.Bilou.Entity.Codes.{get-from_bilou_entity, from_bilou_entity-get}
use nametag.Bilou.Probabilities.{
  Arithmetic, BilouProbabilities, BilouProbabilitiesGlobal, probability, init, update,
}
use nametag.Bilou.Sentence.{
  WordProbabilities, NerSentence, PreviousStage, compute_best_decoding, fill_previous_stage,
}
use nametag.Bilou.Sentence.Best.{tagged, compute_best_decoding-IsBilou}
use nametag.Bilou.Sentence.Optimal.{compute_best_decoding-optimal}
use nametag.Bilou.Sentence.Path.{IsBilou}
use nametag.Bilou.Sentence.Score.{OrderedArithmetic, AtMost, peak, score}
use nametag.Bilou.Sentence.Stages.{AreStagesOf, AreKeptFrom, fill_previous_stage-tagged}

pub times_mono : (x y z : ℕ) → ltb z 0 ≡ false → ltb y x ≡ false → ltb (y * z) (x * z) ≡ false
times_mono x y z n h = le→ltb (y * z) (x * z) (mul-le-mul_right z (ground arith))

over_le : (x y z : ℕ) → 0 < z → x ≤ y → x / z ≤ y / z
over_le x y z n h = (le-div_iff_mul-le n).1 (le_trans (div-mul-le_self x z) h)

pub over_mono : (x y z : ℕ) → ltb 0 z ≡ true → ltb y x ≡ false → ltb (y / z) (x / z) ≡ false
over_mono x y z n h = le→ltb (y / z) (x / z) (over_le x y z (ltb→lt 0 z n) (ground arith))

pub over_self : (x : ℕ) → ltb 0 x ≡ true → x / x ≡ 1
over_self x h = div_self (ltb→lt 0 x h)

pub gt_asymm : (x y : ℕ) → ltb y x ≡ true → ltb x y ≡ false
gt_asymm x y h = ground arith

pub gt_trans : (x y z : ℕ) → ltb y x ≡ false → ltb z y ≡ false → ltb z x ≡ false
gt_trans x y z h k = ground arith

-- Whole numbers; `minus_one` is 0, which no product falls below.
abbrev pub whole : OrderedArithmetic ℕ
whole = record {
  arithmetic = record {
    gt = λ x y. ltb y x;
    times = ◌*◌;
    over = ◌/◌;
    nil = 0;
    one = 1;
    minus_one = 0;
  };
  gt_asymm = gt_asymm;
  gt_trans = gt_trans;
  times_mono = times_mono;
  over_mono = over_mono;
  over_self = over_self;
}

instance abbrev pub whole_arithmetic : Arithmetic ℕ
whole_arithmetic = whole.arithmetic

-- Local probabilities of B, I, L, O and U, with the entity type 7 for B and 8 for U.
abbrev pub local_of : ℕ → ℕ → ℕ → ℕ → ℕ → BilouProbabilities ℕ
local_of b i l o u = record {
  at_begin = record { probability = b; entity = 7 };
  at_inside = record { probability = i; entity = 0 };
  at_last = record { probability = l; entity = 0 };
  at_outside = record { probability = o; entity = 0 };
  at_unit = record { probability = u; entity = 8 };
}

abbrev pub word_of : BilouProbabilities ℕ → BilouProbabilitiesGlobal ℕ → WordProbabilities ℕ
word_of local global = record { local = local; local_filled = true; global = global }

abbrev first_word : WordProbabilities ℕ
first_word = word_of (local_of 5 0 0 1 1) (init (local_of 5 0 0 1 1))

abbrev second_word : WordProbabilities ℕ
second_word = word_of (local_of 1 1 3 1 1) (update (local_of 1 1 3 1 1) first_word.global)

abbrev third_word : WordProbabilities ℕ
third_word = word_of (local_of 0 0 0 2 0) (update (local_of 0 0 0 2 0) second_word.global)

-- Three words; a fourth is left from an earlier sentence.
abbrev three_words : NerSentence ℕ
three_words = record {
  size = 3;
  words = [];
  features = [];
  probabilities = first_word ∷ second_word ∷ third_word ∷ first_word ∷ [];
  previous_stage = [];
}

three_words_tags :
    compute_best_decoding three_words ≡ some (tagged three_words (begin ∷ last ∷ outside ∷ []))
unfolding compute_best_decoding init update
three_words_tags = refl

compute_best_decoding-IsBilou_example :
    (tags : List BilouType) × (compute_best_decoding three_words ≡ some (tagged three_words tags))
    × (length tags ≡ 3)
    × IsBilou tags
compute_best_decoding-IsBilou_example =
    compute_best_decoding-IsBilou three_words first_word (second_word ∷ third_word ∷ []) refl
      (refl, (refl, (refl, tt))) (refl, refl)

second_nonnegative : (t : BilouType) → ltb (probability second_word.local t) 0 ≡ false
second_nonnegative begin = refl
second_nonnegative _ = refl

third_nonnegative : (t : BilouType) → ltb (probability third_word.local t) 0 ≡ false
third_nonnegative begin = refl
third_nonnegative _ = refl

compute_best_decoding-optimal_example :
    (t : BilouType) × (ts : List BilouType) × (compute_best_decoding three_words
      ≡ some (tagged three_words (t ∷ ts)))
    × AtMost whole
        (score whole first_word (second_word ∷ third_word ∷ []) outside (outside ∷ unit ∷ []))
        (score whole first_word (second_word ∷ third_word ∷ []) t ts)
unfolding init update peak
compute_best_decoding-optimal_example =
    compute_best_decoding-optimal whole three_words first_word (second_word ∷ third_word ∷ [])
      outside (outside ∷ unit ∷ []) refl (refl, (refl, tt))
      (second_nonnegative, (third_nonnegative, tt)) (refl, (refl, tt)) tt (refl, (refl, refl))

-- Three words, with a vector of stages that is longer.
abbrev stale_stage : PreviousStage
stale_stage = record { bilou = none; entity = 9 }

abbrev staged_words : NerSentence ℕ
staged_words = record three_words {
  previous_stage = stale_stage ∷ stale_stage ∷ stale_stage ∷ stale_stage ∷ [];
}

fill_previous_stage-tagged_example :
    (stages : List PreviousStage) × (fill_previous_stage
        (tagged staged_words (begin ∷ last ∷ outside ∷ []))
      ≡ some
          (record (tagged staged_words (begin ∷ last ∷ outside ∷ [])) { previous_stage = stages }))
    × (length stages ≡ 4)
    × AreStagesOf three_words.probabilities (begin ∷ last ∷ outside ∷ []) stages
    × AreKeptFrom 3 staged_words.previous_stage stages
fill_previous_stage-tagged_example =
    fill_previous_stage-tagged staged_words (begin ∷ last ∷ outside ∷ []) (omega arith) refl
      (omega arith)

get-from_bilou_entity_example :
    (from_bilou_entity (some unit) 2 < total 5)
    × (get_bilou (from_bilou_entity (some unit) 2) ≡ unit)
    × (get_entity (from_bilou_entity (some unit) 2) ≡ 2)
get-from_bilou_entity_example = get-from_bilou_entity 5 2 unit (omega arith) (omega arith)

from_bilou_entity-get_example : from_bilou_entity (some (get_bilou 9)) (get_entity 9) ≡ 9
unfolding total
from_bilou_entity-get_example = from_bilou_entity-get 5 9 (omega arith) (ground arith)

-- ===== src/Common/Orders.antt =====
-- A decidable strict total order (`Ord`), that of the numbers and that of the texts. Texts compare
-- character by character; on UTF-8 the source's order by bytes is the same one.
use Prim.Native.Nat.{ℕ}
use mathlib.Core.Path.{◌≡◌, refl}
use mathlib.Core.Bool.{Bool, true, false, ◌&&◌, ◌||◌}
use mathlib.Core.List.{[], ◌∷◌}
use native.Mathlib.Omega.{arith}
use flutterdec.Common.Tests.{ltb, nat_eq}
use flutterdec.Common.Strings.{Text}

pub record StrictOrder {ℓ} (A : Type ℓ) : Type ℓ where
  pub lt? : A → A → Bool
  pub lt_irrefl : (a : A) → lt? a a ≡ false
  pub lt_trans : (a b c : A) → lt? a b ≡ true → lt? b c ≡ true → lt? a c ≡ true
  pub lt_total : (a b : A) → lt? a b ≡ false → lt? b a ≡ false → a ≡ b

pub ltb_irrefl : (a : ℕ) → ltb a a ≡ false
ltb_irrefl a = ground arith

pub ltb_trans : (a b c : ℕ) → ltb a b ≡ true → ltb b c ≡ true → ltb a c ≡ true
ltb_trans a b c h k = ground arith

pub ltb_total : (a b : ℕ) → ltb a b ≡ false → ltb b a ≡ false → a ≡ b
ltb_total a b h k = ground arith

instance abbrev pub ℕ_order : StrictOrder ℕ
ℕ_order = record { lt? = ltb; lt_irrefl = ltb_irrefl; lt_trans = ltb_trans; lt_total = ltb_total }

abbrev pub text_lt : Text → Text → Bool
text_lt [] [] = false
text_lt [] (d ∷ ds) = true
text_lt (c ∷ cs) [] = false
text_lt (c ∷ cs) (d ∷ ds) = ltb c d || nat_eq c d && text_lt cs ds

pub text_lt_irrefl : (a : Text) → text_lt a a ≡ false
text_lt_irrefl [] = refl
text_lt_irrefl (c ∷ cs) = ground (arith, text_lt_irrefl cs)

pub text_lt_trans : (a b c : Text) → text_lt a b ≡ true → text_lt b c ≡ true → text_lt a c ≡ true
text_lt_trans [] [] c h k = cc
text_lt_trans [] (y ∷ b) [] h k = cc
text_lt_trans [] (y ∷ b) (z ∷ c) h k = refl
text_lt_trans (x ∷ a) [] c h k = cc
text_lt_trans (x ∷ a) (y ∷ b) [] h k = cc
text_lt_trans (x ∷ a) (y ∷ b) (z ∷ c) h k = ground (arith, text_lt_trans a b c)

pub text_lt-total : (a b : Text) → text_lt a b ≡ false → text_lt b a ≡ false → a ≡ b
text_lt-total [] [] h k = refl
text_lt-total [] (y ∷ b) h k = cc
text_lt-total (x ∷ a) [] h k = cc
text_lt-total (x ∷ a) (y ∷ b) h k = ground (arith, text_lt-total a b)

instance abbrev pub Text_order : StrictOrder Text
Text_order = record {
  lt? = text_lt;
  lt_irrefl = text_lt_irrefl;
  lt_trans = text_lt_trans;
  lt_total = text_lt-total;
}

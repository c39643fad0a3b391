-- ===== src/SemVer/Sample.antt =====
-- A version order that meets the documented behaviour of the crate `semver`, for concrete runs: a
-- version is a text, and the longer one is the greater.
use aztec_accelerator.Prelude.{
  ◌≡◌, ◌⊎◌, refl, arith, true, false, not, some, length, contains, nat_eq,
}
use aztec_accelerator.Prelude.Texts.{Text}
use aztec_accelerator.SemVer.{SemVer, IsPrecedence, gt}
use Prim.Native.Nat.{compare}

abbrev pub sample : SemVer
sample = record {
  Version = Text;
  parse = λ s. some s;
  to_string = λ v. v;
  cmp_precedence = λ a b. compare (length a) (length b);
  build_is_empty = λ v. not (contains b'+' v);
  parse-to_string = λ v. refl;
}

sample-asym : (a b : Text) → gt sample a b ≡ true → gt sample b a ≡ false
unfolding gt
sample-asym a b h = ground arith

sample-cotrans :
    (a b c : Text) → gt sample a c ≡ true → (gt sample a b ≡ true) ⊎ (gt sample b c ≡ true)
unfolding gt
sample-cotrans a b c h = ground arith

pub sample_precedence : IsPrecedence sample
sample_precedence = record { gt-asym = sample-asym; gt-cotrans = sample-cotrans }

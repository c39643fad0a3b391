-- ===== src/Updater/State/Sample.antt =====
-- A state format that meets the law of `StateJson`, for concrete runs: the numbers come first, then
-- the floor behind its length, then the intent.
use aztec_accelerator.Prelude.{
  ℕ, zero, suc, ◌≡◌, refl, sym, arith, Option, none, some, [], ◌∷◌, ◌++◌, length, take, drop, ◌==◌,
  nat_eq, if◌then◌else◌,
}
use aztec_accelerator.Prelude.Lists.{take-length_append, drop-length_append}
use aztec_accelerator.Prelude.Texts.{Text}
use aztec_accelerator.Updater.State.{StateFile, StateJson}

abbrev pub encode_pending : Option Text → Text
encode_pending none = []
encode_pending (some p) = p

abbrev pub has_pending : Option Text → ℕ
has_pending none = 0
has_pending (some _) = 1

abbrev pub encode_stamp : Option ℕ → ℕ
encode_stamp none = 0
encode_stamp (some n) = suc n

abbrev pub decode_stamp : ℕ → Option ℕ
decode_stamp zero = none
decode_stamp (suc n) = some n

abbrev pub bytes : StateFile → Text
bytes s =
    s.schema
    ∷ (encode_stamp s.pending_at
        ∷ (has_pending s.pending ∷ (length s.floor ∷ (s.floor ++ encode_pending s.pending))))

abbrev pub decode : Text → Option StateFile
decode (schema ∷ (stamp ∷ (has ∷ (n ∷ rest)))) = some (record {
  schema = schema;
  floor = take n rest;
  pending = if has == 0 then none else some (drop n rest);
  pending_at = decode_stamp stamp;
})
decode _ = none

decode-bytes_of :
    (k : ℕ) (f : Text) (p : Option Text) (at : Option ℕ)
    → let s : StateFile = record { schema = k; floor = f; pending = p; pending_at = at } in
      decode (bytes s) ≡ some s
decode-bytes_of k f none none = rw (take-length_append f []) refl
decode-bytes_of k f none (some n) = rw (take-length_append f []) refl
decode-bytes_of k f (some p) none = rw (take-length_append f p, drop-length_append f p) refl
decode-bytes_of k f (some p) (some n) = rw (take-length_append f p, drop-length_append f p) refl

pub decode-bytes : (s : StateFile) {t : Text} → some (bytes s) ≡ some t → decode t ≡ some s
decode-bytes s {t} h =
    let same : bytes s ≡ t = ground arith in
    rw (sym same) (decode-bytes_of s.schema s.floor s.pending s.pending_at)

abbrev pub sample_json : StateJson
sample_json = record {
  from_str = decode;
  to_vec = λ s. some (bytes s);
  from_str-to_vec = decode-bytes;
}

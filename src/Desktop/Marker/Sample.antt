-- ===== src/Desktop/Marker/Sample.antt =====
-- A marker format that meets the law of `MarkerJson`, for concrete runs: the numbers and the lengths
-- come first, then the texts.
use aztec_accelerator.Prelude.{
  ℕ, ◌≡◌, refl, sym, arith, Bool, true, false, Option, none, some, ◌∷◌, ◌++◌, length, take, drop,
  ◌==◌, nat_eq, if◌then◌else◌,
}
use aztec_accelerator.Prelude.Lists.{take-length_append, drop-length_append}
use aztec_accelerator.Prelude.Texts.{Text}
use aztec_accelerator.Prelude.Ints.{ℤ, pos, negsuc}
use aztec_accelerator.Desktop.Marker.{MarkerPayload, MarkerJson}

abbrev flag : Bool → ℕ
flag true = 1
flag false = 0

abbrev sign : ℤ → ℕ
sign (pos _) = 0
sign (negsuc _) = 1

abbrev magnitude : ℤ → ℕ
magnitude (pos n) = n
magnitude (negsuc n) = n

abbrev pub encode : MarkerPayload → Text
encode m =
    m.schema
    ∷ (flag m.intent_at_disarm
        ∷ (sign m.deadline_unix
            ∷ (magnitude m.deadline_unix
                ∷ (length m.txn
                    ∷ (length m.candidate ∷ (m.txn ++ (m.candidate ++ m.expected_install_path)))))))

abbrev decode : Text → Option MarkerPayload
decode (schema ∷ (intent ∷ (s ∷ (d ∷ (n ∷ (k ∷ rest)))))) = some (record {
  schema = schema;
  txn = take n rest;
  candidate = take k (drop n rest);
  expected_install_path = drop k (drop n rest);
  intent_at_disarm = intent == 1;
  deadline_unix = if s == 0 then pos d else negsuc d;
})
decode _ = none

decode-encode_of :
    (schema : ℕ) (txn candidate path : Text) (intent : Bool) (deadline : ℤ)
    → let m : MarkerPayload = record {
      schema = schema;
      txn = txn;
      candidate = candidate;
      expected_install_path = path;
      intent_at_disarm = intent;
      deadline_unix = deadline;
    } in
      decode (encode m) ≡ some m
decode-encode_of schema txn candidate path true (pos d) =
    rw
      (
        take-length_append txn (candidate ++ path),
        drop-length_append txn (candidate ++ path),
        take-length_append candidate path,
        drop-length_append candidate path,
      )
      refl
decode-encode_of schema txn candidate path true (negsuc d) =
    rw
      (
        take-length_append txn (candidate ++ path),
        drop-length_append txn (candidate ++ path),
        take-length_append candidate path,
        drop-length_append candidate path,
      )
      refl
decode-encode_of schema txn candidate path false (pos d) =
    rw
      (
        take-length_append txn (candidate ++ path),
        drop-length_append txn (candidate ++ path),
        take-length_append candidate path,
        drop-length_append candidate path,
      )
      refl
decode-encode_of schema txn candidate path false (negsuc d) =
    rw
      (
        take-length_append txn (candidate ++ path),
        drop-length_append txn (candidate ++ path),
        take-length_append candidate path,
        drop-length_append candidate path,
      )
      refl

pub decode-encode : (m : MarkerPayload) {t : Text} → some (encode m) ≡ some t → decode t ≡ some m
decode-encode m {t} h =
    let same : encode m ≡ t = ground arith in
    rw (sym same) (
      decode-encode_of m.schema m.txn m.candidate m.expected_install_path m.intent_at_disarm
        m.deadline_unix)

abbrev pub sample_json : MarkerJson
sample_json = record {
  from_slice = decode;
  to_vec_pretty = λ m. some (encode m);
  from_slice-to_vec_pretty = decode-encode;
}

-- ===== src/Server/Auth/Consent.antt =====
-- Who passes `authorize_origin` of packages/accelerator/core/src/server/auth.rs, who waits for the
-- user, and what an approval is good for.
use aztec_accelerator.Prelude.{
  ℕ, ◌≡◌, ◌↔◌, ◌⊎◌, inl, inr, ap, refl, Bool, true, false, not, Option, none, some, List, [], ◌∷◌,
  ◌++◌, contains, nat_eq, list_eq, if◌then◌else◌, arith, Option-cases, Bool-cases,
}
use aztec_accelerator.Prelude.Texts.{Text, text_eq_iff}
use aztec_accelerator.Authorization.Origin.{UrlParser, canonicalize_origin, is_approved}
use aztec_accelerator.Authorization.Manager.{Requested, accepted, refused, request, allow}
use aztec_accelerator.Server.Header.{
  HeaderValues, first_text, Shows, IsUnseen, first_text-none, none-first_text, first_text-some,
  some-first_text,
}
use aztec_accelerator.Server.Error.{origin_denied}
use aztec_accelerator.Server.Auth.{
  ConfigStore, AuthState, finished, waiting, decided, begin_authorize, finish_authorize,
  approved_by, ask, begun_of, add_origin, persist,
}

contains-append_last : (o : Text) (os : List Text) → contains o (os ++ o ∷ []) ≡ true
contains-append_last o [] = ground (arith, text_eq_iff o o)
contains-append_last o (p ∷ os) = ground (arith, contains-append_last o os)

begun_of-waits : (origin : Text) (r : Requested) → begun_of origin r ≡ finished none → ⊥
unfolding begun_of
begun_of-waits origin (refused e) h = ground arith
begun_of-waits origin (accepted rx id f a) h = ground arith

begun_of-origin :
    (origin o id : Text) (rx : ℕ) (shown : Bool) (r : Requested)
    → begun_of origin r ≡ waiting o id rx shown
    → o ≡ origin
unfolding begun_of
begun_of-origin origin o id rx shown (refused e) h = absurd (ground arith)
begun_of-origin origin o id rx shown (accepted rx' id' f a) h = ground arith

raw_eq : (header : Option Text) {a b : Text} → header ≡ some a → header ≡ some b → a ≡ b
raw_eq header e f = ground arith

differ : (p : Text → Bool) (a b : Text) → p a ≡ true → p b ≡ false → a ≡ b → ⊥
differ p a b pa pb e = ground (arith, ap p e)

module _ (parse : UrlParser) where
  -- The text names a canonical origin.
  abbrev NamesText : Option Text → Text → Type 0
  NamesText header origin =
      (raw : Text) × (header ≡ some raw) × (canonicalize_origin parse raw ≡ some origin)

  begin_authorize_seen :
      (st : AuthState) (headers : HeaderValues) (header : Option Text) (now : ℕ) (fresh : Text)
      (tx : ℕ)
      → first_text headers ≡ header
      → (((begin_authorize parse st headers now fresh tx).1 ≡ finished none) ↔ (
          (st.auth_manager ≡ none)
          ⊎ (header ≡ none)
          ⊎ ((origin : Text) × NamesText header origin
              × (approved_by parse st.config origin ≡ true))))
        × ((origin id : Text) (rx : ℕ) (shown : Bool)
            → (begin_authorize parse st headers now fresh tx).1 ≡ waiting origin id rx shown
            → NamesText header origin
              × (approved_by parse st.config origin ≡ false)
              × (st.show_auth_popup ≡ true))
  unfolding begin_authorize ask
  begin_authorize_seen st headers header now fresh tx seen = elim (Option-cases st.auth_manager) [
    | inl off ↦ ((λ h. inl off, λ h. ground arith), λ origin id rx shown h. absurd (ground arith))
    | inr (am, on) ↦ elim (Option-cases header) [
      | inl bare ↦
          ((λ h. inr (inl bare), λ h. ground arith), λ origin id rx shown h. absurd (ground arith))
      | inr (raw, named) ↦ elim (Option-cases (canonicalize_origin parse raw)) [
        | inl bad ↦ (
          (
            λ h. absurd (ground arith),
            λ w. elim w [
              | inl off ↦ absurd (ground arith)
              | inr (inl bare) ↦ absurd (ground arith)
              | inr (inr (origin, (raw', same, canon), ok)) ↦
                  absurd (ground (arith, ap (canonicalize_origin parse) (raw_eq header named same)))
            ],
          ),
          λ origin id rx shown h. absurd (ground arith),
        )
        | inr (o, good) ↦ elim (Bool-cases (approved_by parse st.config o)) [
          | inl approved ↦ (
            (λ h. inr (inr (o, (raw, named, good), approved)), λ w. ground arith),
            λ origin id rx shown h. absurd (ground arith),
          )
          | inr fresh_site ↦ (
            (
              λ h. absurd (ground (arith, begun_of-waits o (request am o now fresh tx).1)),
              λ w. elim w [
                | inl off ↦ absurd (ground arith)
                | inr (inl bare) ↦ absurd (ground arith)
                | inr (inr (origin, (raw', same, canon), ok)) ↦ absurd (
                    differ (approved_by parse st.config) origin o ok fresh_site
                      (ground (arith, ap (canonicalize_origin parse) (raw_eq header named same))))
              ],
            ),
            λ origin id rx shown h.
                let kept : (begin_authorize parse st headers now fresh tx).1 ≡ (
                    if not st.show_auth_popup
                    then finished (some (origin_denied o))
                    else begun_of o (request am o now fresh tx).1) =
                  ground arith in
                let asked : begun_of o (request am o now fresh tx).1 ≡ waiting origin id rx shown =
                  ground arith in
                let same =
                  begun_of-origin o origin id rx shown (request am o now fresh tx).1 asked in
                ((raw, named, rw same good), rw same fresh_site, ground arith),
          )
        ]
      ]
    ]
  ]

  -- The header's first value names a canonical origin.
  abbrev pub Names : HeaderValues → Text → Type 0
  Names headers origin =
      (raw : Text) × Shows headers raw × (canonicalize_origin parse raw ≡ some origin)

  Names-header :
      (headers : HeaderValues) (origin : Text)
      → NamesText (first_text headers) origin
      → Names headers origin
  Names-header headers origin (raw, shown, canon) = (raw, first_text-some headers raw shown, canon)

  NamesText-header :
      (headers : HeaderValues) (origin : Text)
      → Names headers origin
      → NamesText (first_text headers) origin
  NamesText-header headers origin (raw, shown, canon) =
      (raw, some-first_text headers raw shown, canon)

  -- A request passes without a question exactly if there is no authorization manager, or no Origin
  -- header, or one whose first value is not readable as text, or one whose first value has a
  -- canonical origin that the config approves. It waits for the user only for a canonical origin that
  -- is not approved, and only if the app can open a popup.
  pub begin_authorize_exact :
      (st : AuthState) (headers : HeaderValues) (now : ℕ) (fresh : Text) (tx : ℕ)
      → (((begin_authorize parse st headers now fresh tx).1 ≡ finished none) ↔ (
          (st.auth_manager ≡ none)
          ⊎ IsUnseen headers
          ⊎ ((origin : Text) × Names headers origin × (approved_by parse st.config origin ≡ true))))
        × ((origin id : Text) (rx : ℕ) (shown : Bool)
            → (begin_authorize parse st headers now fresh tx).1 ≡ waiting origin id rx shown
            → Names headers origin
              × (approved_by parse st.config origin ≡ false)
              × (st.show_auth_popup ≡ true))
  begin_authorize_exact st headers now fresh tx =
      let ((sound, complete), waits) =
        begin_authorize_seen st headers (first_text headers) now fresh tx refl in
      (
        (
          λ h. elim (sound h) [
            | inl off ↦ inl off
            | inr (inl bare) ↦ inr (inl (first_text-none headers bare))
            | inr (inr (origin, named, ok)) ↦
                inr (inr (origin, Names-header headers origin named, ok))
          ],
          λ w. complete (elim w [
            | inl off ↦ inl off
            | inr (inl bare) ↦ inr (inl (none-first_text headers bare))
            | inr (inr (origin, named, ok)) ↦
                inr (inr (origin, NamesText-header headers origin named, ok))
          ]),
        ),
        λ origin id rx shown h.
            let (named, fresh_site, popup) = waits origin id rx shown h in
            (Names-header headers origin named, fresh_site, popup),
      )

  -- An origin that the user allowed is not asked about again: where the config may be written and
  -- was, every later request of that origin passes at once, whatever became of the pending requests.
  pub approved_not_asked_again :
      (st : AuthState) (cfg : ConfigStore) (raw origin id fresh : Text) (rest : HeaderValues)
      (now later tx : ℕ)
      → st.config ≡ some cfg
      → cfg.has_cap ≡ true
      → canonicalize_origin parse raw ≡ some origin
      → (begin_authorize parse
          (finish_authorize parse st origin id (decided allow) now true).0
          (some raw ∷ rest)
          later
          fresh
          tx).1
        ≡ finished none
  unfolding begin_authorize finish_authorize persist add_origin approved_by is_approved
  approved_not_asked_again st cfg raw origin id fresh rest now later tx has cap named =
      ground (arith, contains-append_last origin cfg.approved_origins)

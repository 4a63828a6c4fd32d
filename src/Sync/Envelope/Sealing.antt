-- ===== src/Sync/Envelope/Sealing.antt =====
-- src/sync/canonical.ts: what sealing gives, and what verification accepts.
use content_lens.Prelude.{
  ◌≡◌, ◌↔◌, ℕ, get_or, get_elem?, ==_iff, refl, sym, ap, ◌∙◌, same, true, some, if◌then◌else◌,
  same_iff, arith,
}
use content_lens.Sync.Envelope.{
  EntityType, portable_providers, model_catalog, model_bindings, rules, exclusions, identities,
  platform_preferences, index, same_type, collection_order, Platform, Envelope, Payload, valid,
  seal, verify, envelope_conforms, digest_sync_envelope,
}

of_index : ℕ → EntityType
of_index n = get_or (get_elem? collection_order n) platform_preferences

of_index-index : (t : EntityType) → of_index (index t) ≡ t
unfolding of_index index
of_index-index portable_providers = refl
of_index-index model_catalog = refl
of_index-index model_bindings = refl
of_index-index rules = refl
of_index-index exclusions = refl
of_index-index identities = refl
of_index-index platform_preferences = refl

pub same_type_iff : (t u : EntityType) → (same_type t u ≡ true) ↔ (t ≡ u)
unfolding same_type
same_type_iff t u = (
  λ h. sym (of_index-index t) ∙ ap of_index ((==_iff (index t) (index u)).0 h) ∙ of_index-index u,
  λ e. rw e ((==_iff (index u) (index u)).1 refl),
)

module _ (platform : Platform) where
  accepted :
      (e : Envelope)
      → verify platform e ≡ valid e
      → (envelope_conforms platform e ≡ true)
        × (same (digest_sync_envelope platform e.payload) e.digest ≡ true)
  unfolding verify
  accepted e h = ground arith

  pub sealed :
      (p : Payload) (e : Envelope)
      → seal platform p ≡ some e
      → let s : Envelope = record { payload = p; digest = digest_sync_envelope platform p } in
        (s ≡ e) × (envelope_conforms platform s ≡ true)
  unfolding seal
  sealed p e h = ground arith

  accepts :
      (e : Envelope)
      → envelope_conforms platform e ≡ true
      → digest_sync_envelope platform e.payload ≡ e.digest
      → verify platform e ≡ valid e
  unfolding verify
  accepts e c d = ground (arith, same_iff (digest_sync_envelope platform e.payload) e.digest)

  -- Verification accepts an envelope exactly if sealing its payload gives this envelope.
  pub verify-seal :
      (e : Envelope) → (verify platform e ≡ valid e) ↔ (seal platform e.payload ≡ some e)
  unfolding seal
  verify-seal e = (
    λ h.
        let (c, s) = accepted e h in
        rw ((same_iff (digest_sync_envelope platform e.payload) e.digest).0 s, c, if◌then◌else◌)
          refl,
    λ h.
        let (s, c) = sealed e.payload e h in
        accepts e (sym (ap (envelope_conforms platform) s) ∙ c) (ap (λ x. x.digest) s),
  )

  -- What sealing gives has the payload, and is accepted.
  pub seal-verify :
      (p : Payload) (e : Envelope)
      → seal platform p ≡ some e
      → (e.payload ≡ p) × (verify platform e ≡ valid e)
  seal-verify p e h =
      let at : e.payload ≡ p = sym (ap (λ x. x.payload) (sealed p e h).0) in
      (at, (verify-seal e).1 (ap (seal platform) at ∙ h))

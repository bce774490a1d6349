-- ===== src/Protocol/Messages/Sound.antt =====
-- What an accepted message is: its fields are exactly the required ones of its type.
use zygisk_frida_packet_tcp.Base.{
  ◌⊎◌, String, ◌≡◌, refl, sym, ap, ◌∙◌, inl, inr, Bool, true, false, not, ◌↔◌, ◌≢◌, Option, none,
  some, List, [], ◌∷◌, arith, str_eq, eq_iff, mem_text, keep, Bool-cases,
}
use zygisk_frida_packet_tcp.Json.{Json, str, Fields, end, ◌⇒◌⨾◌, get?, has, keys}
use zygisk_frida_packet_tcp.Protocol.Errors.{ok, returns, error_protocol_version, Raises}
use zygisk_frida_packet_tcp.Protocol.Frame.Loop.{Result-cases}
use zygisk_frida_packet_tcp.Protocol.Messages.Check.{
  validate, validate_type, validate_fields, missing_fields, unknown_fields, check_by_type,
  message_type_of, required_fields, check_protocol_version, protocol_version_of,
  protocol_version_mismatch, is_text,
}

has-keys : (m : Fields) (k : String) → has m k ≡ mem_text k (keys m)
unfolding get? mem_text keys
has-keys end k = refl
has-keys (j ⇒ v ⨾ m) k = ground (arith, eq_iff j k, eq_iff k j, has-keys m k)

keep-nil :
    (test : String → Bool) (xs : List String) (k : String)
    → keep test xs ≡ []
    → mem_text k xs ≡ true
    → test k ≡ false
unfolding keep mem_text
keep-nil test [] k h e = absurd (cc)
keep-nil test (x ∷ xs) k h e = elim (Bool-cases (test x)) [
  | inl kept ↦ absurd (ground (arith, kept))
  | inr dropped ↦ elim (Bool-cases (str_eq x k)) [
    | inl same ↦ ap test (sym ((eq_iff x k).0 same)) ∙ dropped
    | inr other ↦ keep-nil test xs k (rw (dropped, keep) at h) (rw (other, mem_text) at e)
  ]
]

module _ (m : Fields) (t : String) (required : List String) where
  validate_fields_parts :
      validate_fields required t m true ≡ returns t
      → (missing_fields required m ≡ [])
        × (unknown_fields required m ≡ [])
        × (check_by_type t m ≡ returns tt)
  unfolding validate_fields
  validate_fields_parts h = (ground arith, ground arith, ground arith)

  validate_fields_type : (t' : String) → validate_fields required t m true ≡ returns t' → t ≡ t'
  unfolding validate_fields
  validate_fields_type t' h = ground arith

  exact_fields :
      missing_fields required m ≡ []
      → unknown_fields required m ≡ []
      → (k : String) → has m k ≡ mem_text k required
  unfolding missing_fields unknown_fields
  exact_fields missing unknown k = ground (
    arith,
    has-keys m k,
    keep-nil (λ (f : String). not (has m f)) required k missing,
    keep-nil (λ (f : String). not (mem_text f required)) (keys m) k unknown,
  )

typed : (m : Fields) (t : String) → message_type_of m ≡ ok t → get? m "type" ≡ some (str t)
unfolding message_type_of
typed m t h = ground arith

unknown_type :
    (o : Option (List String)) (m : Fields) (t t' : String)
    → validate_type o t' m true ≡ returns t
    → (required : List String) × (o ≡ some required)
      × (validate_fields required t' m true ≡ returns t)
unfolding validate_type
unknown_type none m t t' h = absurd (cc)
unknown_type (some required) m t t' h = (required, refl, h)

-- A message that the strict validation accepts has the type that is returned, and its keys are
-- exactly the required fields of that type: none is missing, and there is no other.
pub validate_exact :
    (m : Fields) (t : String)
    → validate m true ≡ returns t
    → (get? m "type" ≡ some (str t))
      × (required : List String) × (required_fields t ≡ some required)
      × ((k : String) → has m k ≡ mem_text k required)
      × (check_by_type t m ≡ returns tt)
unfolding validate
validate_exact m t h = elim (Result-cases (message_type_of m)) [
  | inl (t', e) ↦
      let (required, r, v) = unknown_type (required_fields t') m t t' (rw e at h) in
      let same = validate_fields_type m t' required t v in
      let v' = rw same at v in
      let (missing, unknown, checked) = validate_fields_parts m t required v' in
      (
        typed m t (e ∙ ap ok same),
        required,
        ap required_fields (sym same) ∙ r,
        exact_fields m t required missing unknown,
        checked,
      )
  | inr (err, e) ↦ absurd (ground (arith, e))
]

pub is_text_iff : (v : Json) (s : String) → (is_text v s ≡ true) ↔ (v ≡ str s)
is_text_iff (str t) s = ((λ h. ap str ((eq_iff t s).0 h)), (λ h. (eq_iff t s).1 (cc)))
is_text_iff Json.null s = ((λ h. cc), (λ h. cc))
is_text_iff _ s = ((λ h. cc), (λ h. cc))

-- The version check passes if the version that the message gives, under `protocol` or else under
-- `version`, is the expected text; on any other value it raises ERROR_PROTOCOL_VERSION.
pub check_protocol_version_exact :
    (m : Fields) (expected : String)
    → ((protocol_version_of m ≡ str expected) × (check_protocol_version m expected ≡ ok tt))
      ⊎ ((protocol_version_of m ≢ str expected)
          × Raises (check_protocol_version m expected) error_protocol_version)
unfolding check_protocol_version protocol_version_mismatch
check_protocol_version_exact m expected =
    let iff = is_text_iff (protocol_version_of m) expected in
    elim (Bool-cases (is_text (protocol_version_of m) expected)) [
      | inl same ↦ inl (iff.0 same, rw same refl)
      | inr differs ↦ inr ((λ e. absurd (ground (arith, iff.1 e))), rw differs refl)
    ]

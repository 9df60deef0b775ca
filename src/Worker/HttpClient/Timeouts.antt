-- ===== src/Worker/HttpClient/Timeouts.antt =====
-- What `classify` takes for a timeout.
use webhook_delivery_engine.Exec.{Thrown, DeliverErrorKind}
use webhook_delivery_engine.Prelude.{
  str_eq_iff, ◌↔◌, inr, str_eq, inl, includes, ◌||◌, Bool, Bool-cases, ◌&&◌, ◌⊎◌, arith, refl, true,
  ◌≡◌,
}
use webhook_delivery_engine.Worker.HttpClient.{classify}

-- What is taken for a timeout: an Error by the name AbortError, or with one of three codes in its message.
abbrev pub IsTimeout : Thrown → Type 0
IsTimeout t =
    (t.is_error ≡ true)
    × ((t.name ≡ "AbortError")
        ⊎ (includes t.message "UND_ERR_HEADERS_TIMEOUT" ≡ true)
        ⊎ (includes t.message "UND_ERR_BODY_TIMEOUT" ≡ true)
        ⊎ (includes t.message "UND_ERR_CONNECT_TIMEOUT" ≡ true))

any-true :
    (x n a b c : Bool)
    → ((x && (n || a || b || c)) ≡ true)
      ↔ ((x ≡ true) × ((n ≡ true) ⊎ (a ≡ true) ⊎ (b ≡ true) ⊎ (c ≡ true)))
any-true x n a b c = ground arith

-- The test of `classify`.
abbrev says_timeout : Thrown → Bool
says_timeout t =
    str_eq t.name "AbortError"
    || includes t.message "UND_ERR_HEADERS_TIMEOUT"
    || includes t.message "UND_ERR_BODY_TIMEOUT"
    || includes t.message "UND_ERR_CONNECT_TIMEOUT"

IsTimeout-says_timeout : (t : Thrown) → (t.is_error && says_timeout t) ≡ true → IsTimeout t
IsTimeout-says_timeout t e =
    let (is_error, said) = (any-true _ _ _ _ _).0 e in
    (is_error, elim said [ inl n ↦ inl ((str_eq_iff t.name "AbortError").0 n) | inr m ↦ inr m ])

says_timeout-IsTimeout : (t : Thrown) → IsTimeout t → (t.is_error && says_timeout t) ≡ true
says_timeout-IsTimeout t (is_error, said) =
    (any-true _ _ _ _ _).1
      (is_error, elim said [ inl n ↦ inl ((str_eq_iff t.name "AbortError").1 n) | inr m ↦ inr m ])

pub classify-IsTimeout :
    (t : Thrown)
    → (IsTimeout t → classify t ≡ DeliverErrorKind.timeout)
      × (¬ IsTimeout t → classify t ≡ DeliverErrorKind.conn_error)
unfolding classify
classify-IsTimeout t = elim (Bool-cases (t.is_error && says_timeout t)) [
  | inl late ↦ ((λ h. rw late refl), λ other. absurd (other (IsTimeout-says_timeout t late)))
  | inr early ↦
      ((λ h. absurd (let late = says_timeout-IsTimeout t h in cc)), λ other. rw early refl)
]

-- ===== src/Workers/Errors.antt =====
-- The `HTTPException`s that vpn/VPN_Control_API/app.py raises, and results that may be one.
use nautobot_docker_compose.Base.{ℕ, ◌≡◌, refl, ap, List}
use nautobot_docker_compose.Base.Text.{Text}

pub data HttpError : Type 0 where
  -- 400
  invalid_queue_name : Text → HttpError
  empty_worker_id : HttpError
  not_advertised : Text → List Text → List Text → HttpError
  -- 403
  forbidden : HttpError
  -- 404
  unknown_remote_worker : Text → HttpError
  -- 500, the answer to another exception
  internal_error : HttpError

unfoldable pub status_code : HttpError → ℕ
status_code (unknown_remote_worker worker_id) = 404
status_code forbidden = 403
status_code internal_error = 500
status_code _ = 400

pub data Result {ℓ} (A : Type ℓ) : Type ℓ where
  ok : A → Result A
  err : HttpError → Result A

infixl 5 ◌>>=◌
abbrev pub ◌>>=◌ {κ μ} : {S : Type κ} {T : Type μ} → Result S → (S → Result T) → Result T
ok value >>= next = next value
err error >>= next = err error

-- What a successful step leaves for the rest.
pub bind-eq-ok {κ μ} :
    {S : Type κ} {T : Type μ} (first : Result S) (next : S → Result T) {t : T}
    → (first >>= next) ≡ ok t
    → (value : S) × (first ≡ ok value) × (next value ≡ ok t)
bind-eq-ok (ok value) next h = (value, refl, h)
bind-eq-ok (err error) next h = cc

value_or {ℓ} : {A : Type ℓ} → A → Result A → A
value_or d (ok a) = a
value_or d (err e) = d

pub ok-injective {ℓ} : {A : Type ℓ} {a b : A} → ok a ≡ ok b → a ≡ b
unfolding value_or
ok-injective {a} h = ap (value_or a) h

pub bind-bind {ℓ κ μ} :
    {A : Type ℓ} {B : Type κ} {C : Type μ} (m : Result A) (f : A → Result C) (g : A → Result B)
    (h : B → Result C)
    → ((a : A) → f a ≡ (g a >>= h))
    → (m >>= f) ≡ (m >>= g >>= h)
bind-bind (ok a) f g h same = same a
bind-bind (err e) f g h same = refl

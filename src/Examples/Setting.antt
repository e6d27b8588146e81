-- ===== src/Examples/Setting.antt =====
-- What the concrete runs of the use cases are wired with.
use flood_now_backend.Base.{ℕ, true, false, Option, some, []}
use flood_now_backend.Base.Int.{pos}
use flood_now_backend.Base.Text.{Text}
use flood_now_backend.Base.Float.{Float64}
use flood_now_backend.LocalService.Wallet.{BillingPolicy}

-- An arithmetic that finds every location valid and every distance the same.
abbrev pub flat : Float64
flat = record {
  of_int = λ a. 0;
  lt = λ a b. false;
  eq = λ a b. false;
  add = λ a b. 0;
  sub = λ a b. 0;
  mul = λ a b. 0;
  div = λ a b. 0;
  pi = 0;
  sin = λ a. 0;
  cos = λ a. 0;
  asin = λ a. 0;
  sqrt = λ a. 0;
  hypot = λ a b. 0;
  min = λ a b. 0;
  max = λ a b. 0;
  inf = 0;
}

abbrev pub policy : BillingPolicy
policy = record {
  credit_enabled = true;
  match_fee = pos 30;
  welcome_credit = pos 100;
  confirm_timeout = pos 600000000000;
  request_ttl = pos 3600000000000;
  refund_grace = pos 300000000000;
}

abbrev pub no_names : ℕ → Text
no_names id = []

abbrev pub no_uuid : Text → Option ℕ
no_uuid t = some 8

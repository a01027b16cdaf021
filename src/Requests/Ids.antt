-- ===== src/Requests/Ids.antt =====
-- The ids of requests are new: two numbers never give one id.
use suba_sync.Prelude.{ℕ, Str, ◌≡◌, ap, refl, sym, ◌∙◌, [], ◌∷◌, ◌++◌}
use suba_sync.Text.Decimal.{to_string, to_string_injective}
use suba_sync.Requests.{request_id}

drop_front : Str → Str → Str
drop_front [] s = s
drop_front (x ∷ p) [] = []
drop_front (x ∷ p) (y ∷ s) = drop_front p s

drop_front-append : (p s : Str) → drop_front p (p ++ s) ≡ s
unfolding drop_front
drop_front-append [] s = refl
drop_front-append (x ∷ p) s = drop_front-append p s

append_cancel : (p s t : Str) → p ++ s ≡ p ++ t → s ≡ t
append_cancel p s t e = sym (drop_front-append p s) ∙ ap (drop_front p) e ∙ drop_front-append p t

-- Two requests of one kind have one id only if they have one number.
pub request_id_injective :
    (self infix_text : Str) (m n : ℕ)
    → request_id self infix_text m ≡ request_id self infix_text n
    → m ≡ n
unfolding request_id
request_id_injective self infix_text m n e =
    to_string_injective m n (append_cancel (self ++ infix_text) (to_string m) (to_string n) e)

-- ===== src/Subject/Examples.antt =====
-- Runs of internal/subject, and its theorems at concrete inputs.
use messq.Common.{◌≡◌, refl, [], ◌∷◌, true, false, Bytes, codes, Result, ok, arith}
use messq.Model
use messq.Subject.Utf8
use messq.Subject.Grammar.{parse_pattern, Pattern, compiled, literal, star, gt}
use messq.Subject.Match.{match}
use messq.Subject.Match.Agreement.{match-eq-model}

abbrev orders : Pattern
orders = compiled (codes "a.*.>") (literal (codes "a") ∷ star ∷ gt ∷ [])

orders_parse : parse_pattern (codes "a.*.>") ≡ ok orders
unfolding parse_pattern compiled Utf8.valid_string messq.Common.cut messq.Subject.Grammar.classify
    Utf8.runes Utf8.is_control
orders_parse = refl

orders-match : match orders (codes "a.b.c.d") ≡ true
unfolding match compiled messq.Common.cut messq.Subject.Match.valid_tail
orders-match = refl

orders_need_three : match orders (codes "a.b") ≡ false
unfolding match compiled messq.Common.cut messq.Subject.Match.valid_tail
orders_need_three = refl

match-eq-model_example :
    match orders (codes "a.b.c.d") ≡ Model.match (codes "a.*.>") (codes "a.b.c.d")
match-eq-model_example = match-eq-model (codes "a.*.>") (codes "a.b.c.d") {p = orders} orders_parse

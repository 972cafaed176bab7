-- ===== src/Payroll/Totals.antt =====
-- What the loop of `calculate_payroll` keeps: the totals are the sums of the lines, every amount is
-- in whole cents, and no code is posted twice.
use backend_ssas_rrhh.Base.{
  ℕ, ◌+◌, ◌≡◌, refl, Bool, true, false, ◌||◌, Option, some, List, [], ◌∷◌, ◌++◌, String, str_eq,
  eq_iff, member, All, All-append, any, ok, >>=-Passes, arith, if◌then◌else◌,
}
use backend_ssas_rrhh.Base.Int.{ℤ, pos, negsuc}
use backend_ssas_rrhh.Money.{quantize}
use backend_ssas_rrhh.Money.Laws.{IsCents, quantize_ratio-IsCents}
use backend_ssas_rrhh.Payroll.Rules.{Tipo, Rule, PayrollLine}
use backend_ssas_rrhh.Payroll.Calc.{
  Totals, no_totals, Inputs, rule_amount, nonnegative, add_line, post_rule, apply_rule, apply_rules,
  is_known,
}

abbrev pub is_ingreso : Tipo → Bool
is_ingreso Tipo.ingreso = true
is_ingreso _ = false

abbrev pub is_descuento : Tipo → Bool
is_descuento Tipo.descuento = true
is_descuento _ = false

abbrev pub is_patronal : Tipo → Bool
is_patronal Tipo.patronal = true
is_patronal _ = false

-- The sum of the amounts of the lines of one kind.
abbrev pub sum_of : (Tipo → Bool) → List PayrollLine → ℕ
sum_of p [] = 0
sum_of p (l ∷ rest) = (if p l.kind then l.amount else 0) + sum_of p rest

pub sum_of-append :
    (p : Tipo → Bool) (xs ys : List PayrollLine) → sum_of p (xs ++ ys) ≡ sum_of p xs + sum_of p ys
sum_of-append p [] ys = omega arith
sum_of-append p (l ∷ rest) ys = omega (arith, sum_of-append p rest ys)

-- `c` is the code of some line.
abbrev pub has_code : String → List PayrollLine → Bool
has_code c ls = any (λ l. str_eq l.code c) ls

-- No two lines have one code.
abbrev pub Distinct : List PayrollLine → Type 0
Distinct [] = Unit
Distinct (l ∷ rest) = (has_code l.code rest ≡ false) × Distinct rest

pub has_code-append :
    (c : String) (xs : List PayrollLine) (l : PayrollLine)
    → has_code c (xs ++ l ∷ []) ≡ (has_code c xs || str_eq l.code c)
has_code-append c [] l = ground arith
has_code-append c (x ∷ xs) l = ground (arith, has_code-append c xs l)

pub Distinct-append :
    (xs : List PayrollLine) (l : PayrollLine)
    → Distinct xs
    → has_code l.code xs ≡ false
    → Distinct (xs ++ l ∷ [])
Distinct-append [] l d h = (refl, tt)
Distinct-append (x ∷ xs) l d h = ground (
  arith,
  Distinct-append xs l d.1,
  has_code-append x.code xs l,
  eq_iff l.code x.code,
  eq_iff x.code l.code,
)

-- Every posted code has been seen.
abbrev pub Seen : List String → List PayrollLine → Type 0
Seen seen ls = All (λ l. member l.code seen ≡ true) ls

Seen-cons :
    (c : String) (seen : List String) (ls : List PayrollLine) → Seen seen ls → Seen (c ∷ seen) ls
Seen-cons c seen [] h = tt
Seen-cons c seen (l ∷ rest) h = (ground arith, Seen-cons c seen rest h.1)

-- A code that has not been seen is on no line.
fresh_code :
    (c : String) (seen : List String) (ls : List PayrollLine)
    → Seen seen ls
    → member c seen ≡ false
    → has_code c ls ≡ false
fresh_code c seen [] h m = refl
fresh_code c seen (l ∷ rest) h m = ground (arith, fresh_code c seen rest h.1 m, eq_iff l.code c)

pub record IsBalanced (t : Totals) : Type 0 where
  pub ingresos : t.ingreso ≡ sum_of is_ingreso t.lines
  pub descuentos : t.descuento ≡ sum_of is_descuento t.lines
  pub patronales : t.patronal ≡ sum_of is_patronal t.lines
  pub cents : All (λ l. IsCents l.amount) t.lines
  pub distinct : Distinct t.lines
  pub posted : Seen t.seen t.lines
  pub no_ans : has_code "ANS" t.lines ≡ false

pub IsBalanced-no_totals : IsBalanced no_totals
IsBalanced-no_totals = record {
  ingresos = refl;
  descuentos = refl;
  patronales = refl;
  cents = tt;
  distinct = tt;
  posted = tt;
  no_ans = refl;
}

abbrev posted_line : Rule → ℕ → PayrollLine
posted_line r amount = record { code = r.codigo; name = r.nombre; kind = r.tipo; amount = amount }

quantize-IsCents : (z : ℤ) (d n : ℕ) → quantize z d ≡ pos n → IsCents n
unfolding quantize
quantize-IsCents (pos m) d n e = let (k, q) = quantize_ratio-IsCents m d in (k, ground arith)
quantize-IsCents (negsuc m) d n e = (0, ground arith)

-- A rule that is posted adds one line with its code and kind, in whole cents.
pub post_rule-eq :
    (x : Inputs) (t : Totals) (r : Rule) {u : Totals}
    → post_rule x t r ≡ ok u
    → (amount : ℕ) × IsCents amount × (u ≡ add_line t r.tipo (posted_line r amount))
unfolding post_rule
post_rule-eq x t r h =
    let (raw, e, h') = >>=-Passes (rule_amount x t r) _ h in
    let (amount, e', h'') = >>=-Passes (nonnegative (quantize raw.0 raw.1)) _ h' in
    (amount, quantize-IsCents raw.0 raw.1 amount (ground arith), ground arith)

add_line-IsBalanced :
    (t : Totals) (k : Tipo) (l : PayrollLine)
    → l.kind ≡ k
    → is_known k ≡ true
    → IsCents l.amount
    → member l.code t.seen ≡ true
    → has_code l.code t.lines ≡ false
    → str_eq l.code "ANS" ≡ false
    → IsBalanced t
    → IsBalanced (add_line t k l)
unfolding add_line
add_line-IsBalanced t Tipo.ingreso l e known c m fresh other b = record {
  ingresos = ground (arith, sum_of-append is_ingreso t.lines (l ∷ []));
  descuentos = ground (arith, sum_of-append is_descuento t.lines (l ∷ []));
  patronales = ground (arith, sum_of-append is_patronal t.lines (l ∷ []));
  cents = All-append _ t.lines (l ∷ []) (b.cents, (c, tt));
  distinct = Distinct-append t.lines l b.distinct fresh;
  posted = All-append _ t.lines (l ∷ []) (b.posted, (m, tt));
  no_ans = ground (arith, b.no_ans, has_code-append "ANS" t.lines l);
}
add_line-IsBalanced t (Tipo.otro _) l e known c m fresh other b = cc
add_line-IsBalanced t _ l e known c m fresh other b = record {
  ingresos = ground (arith, sum_of-append is_ingreso t.lines (l ∷ []));
  descuentos = ground (arith, sum_of-append is_descuento t.lines (l ∷ []));
  patronales = ground (arith, sum_of-append is_patronal t.lines (l ∷ []));
  cents = All-append _ t.lines (l ∷ []) (b.cents, (c, tt));
  distinct = Distinct-append t.lines l b.distinct fresh;
  posted = All-append _ t.lines (l ∷ []) (b.posted, (m, tt));
  no_ans = ground (arith, b.no_ans, has_code-append "ANS" t.lines l);
}

seen_more :
    (t : Totals) (c : String) (a : Option Rule)
    → IsBalanced t
    → IsBalanced (record t { seen = c ∷ t.seen; ans_rule = a })
seen_more t c a b = record {
  ingresos = b.ingresos;
  descuentos = b.descuentos;
  patronales = b.patronales;
  cents = b.cents;
  distinct = b.distinct;
  posted = Seen-cons c t.seen t.lines b.posted;
  no_ans = b.no_ans;
}

post_rule-IsBalanced :
    (x : Inputs) (t : Totals) (r : Rule) {u : Totals}
    → post_rule x (record t { seen = r.codigo ∷ t.seen }) r ≡ ok u
    → member r.codigo t.seen ≡ false
    → is_known r.tipo ≡ true
    → str_eq r.codigo "ANS" ≡ false
    → IsBalanced t
    → IsBalanced u
post_rule-IsBalanced x t r h fresh known other b =
    let t' : Totals = record t { seen = r.codigo ∷ t.seen } in
    let (amount, c, e) = post_rule-eq x t' r h in
    rw e (
      add_line-IsBalanced t' r.tipo (posted_line r amount) refl known c
        (ground (arith, eq_iff r.codigo r.codigo))
        (fresh_code r.codigo t.seen t.lines b.posted fresh) other
        (seen_more t r.codigo t.ans_rule b))

pub apply_rule-IsBalanced :
    (x : Inputs) (t : Totals) (r : Rule) {u : Totals}
    → apply_rule x t r ≡ ok u
    → IsBalanced t
    → IsBalanced u
unfolding apply_rule
apply_rule-IsBalanced x t r {u} h b =
    ground (arith, post_rule-IsBalanced x t r {u = u}, seen_more t r.codigo (some r) b)

pub apply_rules-IsBalanced :
    (x : Inputs) (t : Totals) (rs : List Rule) {u : Totals}
    → apply_rules x t rs ≡ ok u
    → IsBalanced t
    → IsBalanced u
unfolding apply_rules
apply_rules-IsBalanced x t [] h b = ground arith
apply_rules-IsBalanced x t (r ∷ rest) h b =
    let (t', e, h') = >>=-Passes (apply_rule x t r) _ h in
    apply_rules-IsBalanced x t' rest h' (apply_rule-IsBalanced x t r e b)

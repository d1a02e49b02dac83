-- ===== src/Sql/Parser/Statement/Names.antt =====
-- sql/parse_stmt.go, sql/parser.go (tryName): the names of tables start as identifiers do.
use db.Prelude.{
  ◌≡◌, ◌≢◌, refl, Bool, true, false, [], ◌∷◌, Bytes, ℕ, inl, inr, Bool-cases, ap, ◌∙◌,
  if◌then◌else◌,
}
use db.Sql.Stmt.{StmtCreatTable, Stmt}
use db.Sql.Parser.{name_at, is_name_start, is_alpha, try_name, skip_spaces, at_end}
use db.Sql.Parser.Statement.{
  StmtError, Result, done, refused, stuck, Parser, bind, pure, ◌>>=◌, punctuation, name, found_name,
  table_name, comma_list, table_item, require, parse_create_table, Verb, select_verb, create_verb,
  insert_verb, update_verb, delete_verb, body, finish, parse_stmt, parse_select, parse_insert,
  parse_update, parse_delete, verb_of, verbs, expect_table_name, expect_open, expect_close,
  no_columns, no_primary_key, trailing_tokens,
}

-- Every value that the parser gives has Q.
abbrev pub Gives {ℓ} : {A : Type ℓ} → (A → Type 0) → Result A → Type 0
Gives Q (done a p) = Q a
Gives Q (refused e) = Unit
Gives Q stuck = Unit

record Giving {ℓ} {A : Type ℓ} (Q : A → Type 0) (m : Parser A) : Type ℓ where
  parse : (p : Bytes) → Gives Q (m p)

module _ {ℓ} {A : Type ℓ} where
  any : (r : Result A) → Gives (λ _. Unit) r
  any (done a p) = tt
  any (refused e) = tt
  any stuck = tt

  bind-Gives {κ} :
      {B : Type κ} (Q : A → Type 0) (R : B → Type 0) (r : Result A) (f : A → Bytes → Result B)
      → Gives Q r
      → ((a : A) (p : Bytes) → Q a → Gives R (f a p))
      → Gives R (bind r f)
  bind-Gives Q R (done a p) f h k = k a p h
  bind-Gives Q R (refused e) f h k = tt
  bind-Gives Q R stuck f h k = tt

  pure-Giving : (Q : A → Type 0) (a : A) → Q a → Giving Q (pure a)
  pure-Giving Q a h = record { parse = λ p. h }

  bind-Giving {κ} :
      {B : Type κ} {Q : A → Type 0} {R : B → Type 0} {m : Parser A} {f : A → Parser B}
      → Giving Q m
      → ((a : A) → Q a → Giving R (f a))
      → Giving R (m >>= f)
  bind-Giving {Q} {R} {m} {f} h k = record {
    parse = λ p. bind-Gives Q R (m p) f (h.parse p) (λ a q s. (k a s).parse q);
  }

  -- A step whose value does not matter.
  then-Giving {κ} :
      {B : Type κ} {R : B → Type 0} (m : Parser A) {f : A → Parser B}
      → ((a : A) → Giving R (f a))
      → Giving R (m >>= f)
  then-Giving {R} m {f} k = record {
    parse = λ p. bind-Gives (λ _. Unit) R (m p) f (any (m p)) (λ a q s. (k a).parse q);
  }

-- A name that does not start as the reserved keys of the catalog do.
abbrev pub IsPlain : Bytes → Type 0
IsPlain [] = ⊥
IsPlain (ch ∷ s) = ch ≢ b'@'

at_sign : is_name_start b'@' ≡ false
unfolding is_name_start is_alpha
at_sign = refl

name_at-IsPlain : (e : StmtError) (s : Bytes) → Gives IsPlain (found_name e (name_at s))
name_at-IsPlain e [] = tt
name_at-IsPlain e (ch ∷ p) = elim (Bool-cases (is_name_start ch)) [
  | inl t ↦
      rw t (λ same. let no_start : is_name_start ch ≡ false = ap is_name_start same ∙ at_sign in cc)
  | inr t ↦ rw t tt
]

table_name-Giving : Giving IsPlain table_name
unfolding table_name name try_name
table_name-Giving = record { parse = λ p. name_at-IsPlain expect_table_name (skip_spaces p) }

create_table-Giving :
    (fuel : ℕ) → Giving (λ (s : StmtCreatTable). IsPlain s.table) (parse_create_table fuel)
unfolding parse_create_table
create_table-Giving fuel = bind-Giving table_name-Giving (λ table h.
    then-Giving (punctuation (b'(' ∷ []) expect_open) (λ _.
      then-Giving (comma_list (table_item fuel) fuel ([], [])) (λ d.
        then-Giving (punctuation (b')' ∷ []) expect_close) (λ _.
          then-Giving (require d.0 no_columns) (λ _. then-Giving (require d.1 no_primary_key) (λ _.
            pure-Giving (λ s. IsPlain s.table) (record { table = table; cols = d.0; pkey = d.1 })
              h))))))

abbrev pub CreatesPlain : Stmt → Type 0
CreatesPlain (Stmt.create_table s) = IsPlain s.table
CreatesPlain _ = Unit

body-Giving : (fuel : ℕ) (v : Verb) → Giving CreatesPlain (body fuel v)
unfolding body
body-Giving fuel select_verb = record {
  parse = λ p. bind-Gives (λ _. Unit) CreatesPlain (parse_select fuel p) _ (any _) (λ s q h. tt);
}
body-Giving fuel create_verb = record {
  parse = λ p.
      bind-Gives (λ s. IsPlain s.table) CreatesPlain (parse_create_table fuel p) _
        ((create_table-Giving fuel).parse p) (λ s q h. h);
}
body-Giving fuel insert_verb = record {
  parse = λ p. bind-Gives (λ _. Unit) CreatesPlain (parse_insert fuel p) _ (any _) (λ s q h. tt);
}
body-Giving fuel update_verb = record {
  parse = λ p. bind-Gives (λ _. Unit) CreatesPlain (parse_update fuel p) _ (any _) (λ s q h. tt);
}
body-Giving fuel delete_verb = record {
  parse = λ p. bind-Gives (λ _. Unit) CreatesPlain (parse_delete fuel p) _ (any _) (λ s q h. tt);
}

finish-Giving : (s : Stmt) → CreatesPlain s → Giving CreatesPlain (finish s)
unfolding finish
finish-Giving s h = record { parse = λ p. ended p (at_end p) }
  where
    ended :
        (p : Bytes) (end : Bool × Bytes)
        → Gives CreatesPlain (if end.0 then done s end.1 else refused trailing_tokens)
    ended p (true, q) = h
    ended p (false, q) = tt

pub parse_stmt-Gives : (fuel : ℕ) (p : Bytes) → Gives CreatesPlain (parse_stmt fuel p)
unfolding parse_stmt
parse_stmt-Gives fuel =
    (then-Giving (verb_of verbs) (λ v. bind-Giving (body-Giving fuel v) finish-Giving)).parse

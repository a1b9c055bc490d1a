-- ===== src/Etl/Router/Tables.antt =====
-- The creation of a month table, and the retirement of old ones.
use tdcs.Prelude.{
  ℕ, ◌-◌, ◌≡◌, refl, ap, ◌⊎◌, String, List, [], ◌∷◌, ◌++◌, map, true, arith, leb, length, number_eq,
  text_eq, Bool-cases, inl, inr,
}
use tdcs.Prelude.Dict.{contains, add, contains-add, beq_refl}
use tdcs.Prelude.Text.{Text, codes_eq}
use tdcs.Etl.{Result, ok, raise, ◌>>=◌, ◌>>◌}
use tdcs.Etl.Router.{
  TableConfig, Template, content, missing, unreadable, Router, Registration, validate_table_name,
  substitute, register, read_template, ensure_table_exists, retire, archive_old_tables,
  format_month,
}

ensure-again :
    (template : Template) (cfg : TableConfig) (name : Text) (r : Router)
    → contains name r.created ≡ true
    → ensure_table_exists template cfg name r ≡ ok r
unfolding ensure_table_exists
ensure-again template cfg name r h = rw h

ensure-created :
    (template : Template) (cfg : TableConfig) (name : Text) (r r' : Router)
    → ensure_table_exists template cfg name r ≡ ok r'
    → contains name r'.created ≡ true
unfolding ensure_table_exists
ensure-created template cfg name r r' h = elim (Bool-cases (contains name r.created)) [
  | inl old ↦ ground arith
  | inr new ↦ ground (arith, contains-add name name r.created, beq_refl name)
]

-- A router that has made sure of a table once does nothing for that table again, whatever the
-- template file then holds and whichever task asks.
pub ensure_table_exists_once :
    (template template' : Template) (cfg cfg' : TableConfig) (name : Text) (r r' : Router)
    → ensure_table_exists template cfg name r ≡ ok r'
    → ensure_table_exists template' cfg' name r' ≡ ok r'
ensure_table_exists_once template template' cfg cfg' name r r' h =
    ensure-again template' cfg' name r' (ensure-created template cfg name r r' h)

-- what one call may add to the statements that were executed
abbrev pub AddsOnlyValid : Text → Router → Result Router → Type 0
AddsOnlyValid name r (ok r') =
    (r'.executed ≡ r.executed)
    ⊎ ((validate_table_name name ≡ ok tt)
        × (sql : Text) × (r'.executed ≡ r.executed ++ substitute (length sql) name sql ∷ []))
AddsOnlyValid name r (raise e) = Unit

-- A call that succeeds executes nothing, or one statement, which is the template's text with the
-- table's name put in, and then the name has passed the check.
pub ensure_table_exists_executes :
    (template : Template) (cfg : TableConfig) (name : Text) (r : Router)
    → AddsOnlyValid name r (ensure_table_exists template cfg name r)
unfolding ensure_table_exists
ensure_table_exists_executes template cfg name r = elim (Bool-cases (contains name r.created)) [
  | inl old ↦ rw old (inl refl)
  | inr new ↦ rw new (after_check (validate_table_name name) refl template)
]
  where
    after_check :
        (v : Result (Unit {0}))
        → validate_table_name name ≡ v
        → (template : Template)
        → AddsOnlyValid name r (
            v
            >> (read_template template >>= λ sql. ok (record {
              created = add name r.created;
              executed = r.executed ++ substitute (length sql) name sql ∷ [];
              registry = register cfg.task_id name r.registry;
            })))
    after_check (raise e) h t = tt
    after_check (ok _) h (content sql) = inr (h, sql, refl)
    after_check (ok _) h missing = tt
    after_check (ok _) h unreadable = tt

-- A retired registry is retired already: a second run with the same cutoff changes nothing.
retire-retire :
    (tid : String) (cutoff : Text) (now later : ℕ) (e : Registration)
    → retire tid cutoff later (retire tid cutoff now e) ≡ retire tid cutoff now e
unfolding retire
retire-retire tid cutoff now later e = ground arith

map-retire :
    (tid : String) (cutoff : Text) (now later : ℕ) (es : List Registration)
    → map (retire tid cutoff later) (map (retire tid cutoff now) es)
      ≡ map (retire tid cutoff now) es
map-retire tid cutoff now later [] = refl
map-retire tid cutoff now later (e ∷ es) =
    cc (retire-retire tid cutoff now later e, map-retire tid cutoff now later es)

-- A second retirement in the same month changes nothing, the times of the first included.
pub archive_old_tables_idem :
    (cfg : TableConfig) (month now later : ℕ) (r : Router)
    → archive_old_tables cfg month later (archive_old_tables cfg month now r)
      ≡ archive_old_tables cfg month now r
unfolding archive_old_tables
archive_old_tables_idem cfg month now later r = elim (Bool-cases (leb cfg.retention_months 0)) [
  | inl kept ↦ rw kept
  | inr due ↦ rw due (
      ap (λ (es : List Registration). record r { registry = es })
        (map-retire cfg.task_id (format_month (month - cfg.retention_months)) now later r.registry))
]

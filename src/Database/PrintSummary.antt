-- ===== src/Database/PrintSummary.antt =====
-- `Database.print_summary` of database.py.
use voucher_management_deskt.Database.Rows.{VoucherPrint, Db, has_id, is_printed}
use package.text.Mathlib.Text.{is_lt}
use Prim.Native.String.{compare}
use voucher_management_deskt.Policy.{PrintAuditSummary}
use voucher_management_deskt.Prelude.{
  List, [], ◌∷◌, String, ℕ, Bool, if◌then◌else◌, ◌+◌, filter_by, eqb, length, map, is_nil, ◌&&◌,
  any_by,
}

abbrev total_copies : List VoucherPrint → ℕ
total_copies [] = 0
total_copies (p ∷ ps) = p.physical_copies + total_copies ps

-- `COALESCE(MIN(...), '')` and `COALESCE(MAX(...), '')`, in SQLite's order of texts
abbrev text_before : String → String → Bool
text_before s t = is_lt (compare s t)

abbrev least_text : List String → String
least_text [] = ""
least_text (s ∷ []) = s
least_text (s ∷ t ∷ r) = let m = least_text (t ∷ r) in if text_before m s then m else s

abbrev greatest_text : List String → String
greatest_text [] = ""
greatest_text (s ∷ []) = s
greatest_text (s ∷ t ∷ r) = let m = greatest_text (t ∷ r) in if text_before s m then m else s

-- `print_summary`, with `print_state` of the row as it is
pub print_summary : ℕ → Db → PrintAuditSummary
print_summary k db =
    let mine = filter_by (λ (p : VoucherPrint). eqb p.voucher_id k) db.prints in
    record {
      print_jobs = length mine;
      physical_copies = total_copies mine;
      first_printed_at = least_text (map (λ (p : VoucherPrint). p.printed_at) mine);
      last_printed_at = greatest_text (map (λ (p : VoucherPrint). p.printed_at) mine);
      known_printed_without_audit =
          is_nil mine && any_by (λ v. has_id k v && is_printed v.print_state) db.vouchers;
    }

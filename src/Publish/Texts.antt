-- ===== src/Publish/Texts.antt =====
-- The texts of a publication's reason and the paths that it covers.
use Prim.Native.String.{String}
use text.Mathlib.TextEquality.{eq_iff}
use cognis.Base.{◌≡◌, ◌↔◌, ap, some, arith}
use cognis.Publish.{
  PublishReason, initial, incremental, reconcile, full, re_embed, as_db_str, parse_db_str,
}

read : (s : String) (r : PublishReason) → parse_db_str s ≡ some r → s ≡ as_db_str r
unfolding parse_db_str as_db_str
read s r e = ground (
  arith,
  e,
  eq_iff s "initial",
  eq_iff s "incremental",
  eq_iff s "reconcile",
  eq_iff s "full",
  eq_iff s "reembed",
)

-- The text of a reason is read back as that reason, and no other text is read as one: the two
-- functions are inverse to each other where a text is read at all.
pub parse_db_str-as_db_str :
    (s : String) (r : PublishReason) → (parse_db_str s ≡ some r) ↔ (s ≡ as_db_str r)
unfolding parse_db_str as_db_str
parse_db_str-as_db_str s initial = (λ e. read s initial e, λ e. ap parse_db_str e)
parse_db_str-as_db_str s incremental = (λ e. read s incremental e, λ e. ap parse_db_str e)
parse_db_str-as_db_str s reconcile = (λ e. read s reconcile e, λ e. ap parse_db_str e)
parse_db_str-as_db_str s full = (λ e. read s full e, λ e. ap parse_db_str e)
parse_db_str-as_db_str s re_embed = (λ e. read s re_embed e, λ e. ap parse_db_str e)

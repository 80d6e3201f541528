-- ===== src/FourdType/Names.antt =====
-- Which names stand for which types.
use pdo_4d.Base.{
  ◌≡◌, refl, sym, ap, ◌∙◌, ◌≢◌, ◌↔◌, ◌⊎◌, inl, inr, arith, if◌then◌else◌, Bool-cases, Bytes, codes,
  equal, equal_iff,
}
use pdo_4d.FourdType.{
  FourdType, ResultType, vk_unknow, vk_time, vk_text, vk_timestamp, vk_string, type_from_string,
  string_from_type, unknow, update_count, result_set, result_type_from_string,
  string_from_result_type,
}

-- The name of a type reads back as that type, but for VK_TIME and VK_TEXT.
pub type_from_string-string_from_type :
    (t : FourdType) → t ≢ vk_time → t ≢ vk_text → type_from_string (string_from_type t) ≡ t
unfolding type_from_string string_from_type
type_from_string-string_from_type t n m = ground arith

-- One step down a ladder of comparisons.
by_name :
    {P T : Type 0} (s n : Bytes) {a b t : T}
    → (if equal s n then a else b) ≡ t
    → (s ≡ n → a ≡ t → P)
    → (b ≡ t → P)
    → P
by_name s n e this next = elim (Bool-cases (equal s n)) [
  | inl same ↦ this ((equal_iff s n).0 same) (rw same at e)
  | inr other ↦ next (rw other at e)
]

-- A name that reads as a known type is that type's own name, or one of the two synonyms.
pub type_from_string_sound :
    (s : Bytes) (t : FourdType)
    → type_from_string s ≡ t
    → t ≢ vk_unknow
    → (s ≡ string_from_type t)
      ⊎ ((s ≡ codes "VK_TIME") × (t ≡ vk_timestamp))
      ⊎ ((s ≡ codes "VK_TEXT") × (t ≡ vk_string))
unfolding type_from_string string_from_type
type_from_string_sound s t e known = by_name s (codes "VK_BOOLEAN") e own λ e.
    by_name s (codes "VK_BYTE") e own λ e. by_name s (codes "VK_WORD") e own λ e.
      by_name s (codes "VK_LONG") e own λ e. by_name s (codes "VK_LONG8") e own λ e.
        by_name s (codes "VK_REAL") e own λ e. by_name s (codes "VK_FLOAT") e own λ e.
          by_name s (codes "VK_TIMESTAMP") e own λ e.
            by_name s (codes "VK_TIME") e (λ q r. inr (inl (q, sym r)))
              λ e. by_name s (codes "VK_DURATION") e own λ e.
                by_name s (codes "VK_TEXT") e (λ q r. inr (inr (q, sym r)))
                  λ e. by_name s (codes "VK_STRING") e own λ e.
                    by_name s (codes "VK_BLOB") e own
                      λ e. by_name s (codes "VK_IMAGE") e own λ e. absurd (known (sym e))
  where
    own :
        {a : FourdType}
        → s ≡ string_from_type a
        → a ≡ t
        → (s ≡ string_from_type t)
          ⊎ ((s ≡ codes "VK_TIME") × (t ≡ vk_timestamp))
          ⊎ ((s ≡ codes "VK_TEXT") × (t ≡ vk_string))
    own q r = inl (q ∙ ap string_from_type r)

set≢count : result_set ≢ update_count
set≢count e = cc

-- The two result types that are known read back from their names, and no other string reads as one of them.
pub result_type_from_string_iff :
    (s : Bytes) (t : ResultType)
    → t ≢ unknow
    → (result_type_from_string s ≡ t) ↔ (s ≡ string_from_result_type t)
unfolding result_type_from_string string_from_result_type
result_type_from_string_iff s update_count known = (
  λ e.
      by_name s (codes "Update-Count") e (λ q r. q)
        λ e.
          by_name s (codes "Result-Set") e (λ q r. absurd (set≢count r))
            λ e. absurd (known (sym e)),
  λ e. rw e,
)
result_type_from_string_iff s result_set known = (
  λ e.
      by_name s (codes "Update-Count") e (λ q r. absurd (set≢count (sym r)))
        λ e. by_name s (codes "Result-Set") e (λ q r. q) λ e. absurd (known (sym e)),
  λ e. rw e,
)
result_type_from_string_iff s unknow known = absurd (known refl)

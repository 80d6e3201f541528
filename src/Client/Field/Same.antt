-- ===== src/Client/Field/Same.antt =====
-- Reading a value changes no more of the connection than its error.
use pdo_4d.Base.{
  ℕ, ◌≡◌, refl, Option-cases, inl, inr, if◌then◌else◌, Bytes, Outcome, ok, ◌>>=◌, WhenOk,
  WhenOk-bind, WhenOk-any,
}
use pdo_4d.Client.Field.{
  null_text, out_of_bounds, index_elmt, element_at, fourd_field, convert, fourd_field_to_string,
}
use pdo_4d.Connection.{Fourd, FourdResult}

-- The connection counts as connected as before.
abbrev pub IsSame : {A : Type 0} → Fourd → Fourd × A → Type 0
IsSame cnx r = r.0.connected ≡ cnx.connected

module _ {A B : Type 0} (cnx : Fourd) where
  -- Behind a computation on memory alone.
  pub IsSame-after :
      (m : Outcome A) (f : A → Outcome (Fourd × B))
      → ((a : A) → WhenOk (IsSame cnx) (f a))
      → WhenOk (IsSame cnx) (m >>= f)
  IsSame-after m f h = WhenOk-bind (λ a. Unit) (IsSame cnx) m f (WhenOk-any m) (λ a u. h a)

module _ (cnx : Fourd) (res : FourdResult) (num_col : ℕ) where
  pub fourd_field-IsSame : WhenOk (IsSame cnx) (fourd_field cnx res num_col)
  unfolding fourd_field
  fourd_field-IsSame = elim (Option-cases (out_of_bounds res num_col)) [
    | inl e ↦
        rw (e, fourd_field)
          (IsSame-after cnx (element_at res.elmt (index_elmt res num_col)) _ (λ e. refl))
    | inr (text, e) ↦ rw (e, fourd_field) refl
  ]

  pub fourd_field_to_string-IsSame :
      (format_lf : Bytes → Bytes)
      → WhenOk (IsSame cnx) (fourd_field_to_string format_lf cnx res num_col)
  unfolding fourd_field_to_string
  fourd_field_to_string-IsSame format_lf = elim (Option-cases (out_of_bounds res num_col)) [
    | inl e ↦
        rw (e, fourd_field_to_string)
          (IsSame-after cnx (element_at res.elmt (index_elmt res num_col)) _ λ x.
            IsSame-after cnx
              (if x.is_null then ok (null_text, 0) else convert format_lf x.type x.value) _
              (λ c. refl))
    | inr (text, e) ↦ rw (e, fourd_field_to_string) refl
  ]

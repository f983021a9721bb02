-- ===== src/Apt/Control/Index.antt =====
-- internal/apt/control.go: the index of a paragraph beside its fields.
use deb_s3_go.Base.{
  ℕ, suc, ◌+◌, List, [], ◌∷◌, Option, none, some, Bytes, if◌then◌else◌, length, ◌≡◌, refl, sym, ap,
  ◌∙◌, arith, Bool-cases, Option-cases, inl, inr,
}
use deb_s3_go.Base.Strings.{equal, equal_iff, split, replace_crlf, trim_suffix}
use deb_s3_go.Base.Assoc.{Assoc, lookup, insert, lookup-insert}
use deb_s3_go.Apt.Control.{
  Field, Paragraph, empty_paragraph, remove_at, reindex_from, reindex, get, take_at, take_field,
  set_at, set, ParserState, commit, continue_field, begin_field, parse_bare_line, parse_line,
  parse_lines, initial, parse_paragraph, parse_with, continuation, control_field,
}
use deb_s3_go.Apt.Control.Dictionary.{
  find_value, remove_named, set_named, position, Distinct, kept_at, value_at-position,
  remove_at-position, set_value-position, remove_named-Distinct, position-set_named,
  set_named-Distinct, find_value-set_named, find_value-remove_named,
}

pub record IsIndexed (p : Paragraph) : Type 0 where
  pub distinct : Distinct p.fields
  pub at_name : (name : Bytes) → lookup name p.index ≡ position name p.fields

abbrev shifted : ℕ → Option ℕ → Option ℕ → Option ℕ
shifted n none old = old
shifted n (some k) old = some (n + k)

lookup-reindex_from :
    (n : ℕ) (index : Assoc ℕ) (fs : List Field) (name : Bytes)
    → Distinct fs
    → lookup name (reindex_from n index fs) ≡ shifted n (position name fs) (lookup name index)
unfolding reindex_from
lookup-reindex_from n index [] name h = refl
lookup-reindex_from n index (f ∷ fs) name h =
    lookup-reindex_from (suc n) (insert f.name n index) fs name h.1
    ∙ elim (Bool-cases (equal f.name name)) [
      | inl same ↦
          let absent = rw ((equal_iff f.name name).0 same) at (h.0) in
          rw (lookup-insert, same, absent) (ap some (omega arith))
      | inr other ↦ rw (lookup-insert, other) (ground arith)
    ]

module _ (p : Paragraph) (h : IsIndexed p) where
  get-find_value : (name : Bytes) → get p name ≡ find_value name p.fields
  unfolding get
  get-find_value name = ground (arith, h.at_name name, value_at-position name p.fields)

  pub fields-set : (name value : Bytes) → (set p name value).fields ≡ set_named name value p.fields
  unfolding set
  fields-set name value = ground (arith, h.at_name name, set_value-position name value p.fields)

  lookup-set :
      (name value j : Bytes)
      → lookup j (set p name value).index ≡ (elim (position name p.fields) [
        | none ↦ if equal name j then some (length p.fields) else position j p.fields
        | some n ↦ position j p.fields
      ])
  unfolding set
  lookup-set name value j = elim (Option-cases (position name p.fields)) [
    | inl absent ↦
        let e = h.at_name name ∙ absent in
        rw (absent, e, set_at)
          (lookup-insert name j (length p.fields) p.index ∙ rw (h.at_name j) refl)
    | inr (n, present) ↦ let e = h.at_name name ∙ present in rw (present, e, set_at) (h.at_name j)
  ]

  pub set-IsIndexed : (name value : Bytes) → IsIndexed (set p name value)
  set-IsIndexed name value = record {
    distinct = rw (fields-set name value) (set_named-Distinct name value p.fields h.distinct);
    at_name = λ j.
        rw (fields-set name value)
          (lookup-set name value j ∙ sym (position-set_named j name value p.fields));
  }

  fields-take_field : (name : Bytes) → (take_field p name).1.fields ≡ remove_named name p.fields
  unfolding take_field
  fields-take_field name = ground (arith, h.at_name name, remove_at-position name p.fields)

  value-take_field : (name : Bytes) → (take_field p name).0 ≡ find_value name p.fields
  unfolding take_field
  value-take_field name = ground (arith, h.at_name name, value_at-position name p.fields)

reindex-IsIndexed : (p : Paragraph) → Distinct p.fields → IsIndexed (reindex p)
unfolding reindex
reindex-IsIndexed p d = record {
  distinct = d;
  at_name = λ j.
      lookup-reindex_from 0 [] p.fields j d ∙ unfold lookup in shifted_zero (position j p.fields);
}
  where
    shifted_zero : (o : Option ℕ) → shifted 0 o none ≡ o
    shifted_zero none = refl
    shifted_zero (some n) = ap some (omega arith)

take_at-IsIndexed :
    (p : Paragraph) (name : Bytes) (o : Option ℕ)
    → IsIndexed p
    → lookup name p.index ≡ o
    → IsIndexed (take_at p o).1
unfolding take_at
take_at-IsIndexed p name none h e = h
take_at-IsIndexed p name (some n) h e =
    reindex-IsIndexed (record p { fields = remove_at p.fields n })
      (rw (removed (sym (h.at_name name) ∙ e)) (remove_named-Distinct name p.fields h.distinct))
  where
    removed : position name p.fields ≡ some n → remove_at p.fields n ≡ remove_named name p.fields
    removed present = sym (ap (kept_at p.fields) present) ∙ remove_at-position name p.fields

-- Taking a field keeps the index right.
pub take_field-IsIndexed :
    (p : Paragraph) (name : Bytes) → IsIndexed p → IsIndexed (take_field p name).1
unfolding take_field
take_field-IsIndexed p name h = take_at-IsIndexed p name (lookup name p.index) h refl

-- `set` and `Take` act on a paragraph, whose index is right, as on a dictionary that keeps the
-- order of its names: `set` changes the value of one name only, `Take` returns the value and
-- removes one name only, and both leave the index right. The fields that stay keep their order:
-- the field list changes in one place, or grows at its end.
pub set_take_dictionary :
    (p : Paragraph) (name value : Bytes)
    → IsIndexed p
    → ((j : Bytes) → get (set p name value) j ≡ (if equal name j then some value else get p j))
      × ((take_field p name).0 ≡ get p name)
      × ((j : Bytes) → get (take_field p name).1 j ≡ (if equal name j then none else get p j))
      × ((set p name value).fields ≡ set_named name value p.fields)
      × ((take_field p name).1.fields ≡ remove_named name p.fields)
      × IsIndexed (set p name value)
      × IsIndexed (take_field p name).1
set_take_dictionary p name value h =
    let written = set-IsIndexed p h name value in
    let taken = take_field-IsIndexed p name h in
    (
      λ j.
          get-find_value (set p name value) written j
          ∙ rw (fields-set p h name value)
              (find_value-set_named name value j p.fields ∙ rw (get-find_value p h j) refl),
      value-take_field p h name ∙ sym (get-find_value p h name),
      λ j.
          get-find_value (take_field p name).1 taken j
          ∙ rw (fields-take_field p h name)
              (find_value-remove_named name j p.fields h.distinct ∙ rw (get-find_value p h j) refl),
      fields-set p h name value,
      fields-take_field p h name,
      written,
      taken,
    )

pub IsIndexed-empty : IsIndexed empty_paragraph
unfolding lookup
IsIndexed-empty = record { distinct = tt; at_name = λ name. refl }

commit-IsIndexed : (st : ParserState) → IsIndexed st.paragraph → IsIndexed (commit st)
unfolding commit
commit-IsIndexed st h = elim (Bool-cases (equal st.current_name [])) [
  | inl e ↦ rw e h
  | inr e ↦ rw e (set-IsIndexed st.paragraph h st.current_name st.current_value)
]

parse_bare_line-IsIndexed :
    (st : ParserState) (line : Bytes)
    → IsIndexed st.paragraph
    → IsIndexed (parse_bare_line st line).paragraph
unfolding parse_bare_line
parse_bare_line-IsIndexed st line h = over (continuation line)
  where
    continued : (n : ℕ) (rest : Bytes) → IsIndexed (continue_field st n rest).paragraph
    continued n rest = unfold continue_field in ground (arith, h)

    begun : (o : Option (Bytes × Bytes)) → IsIndexed (begin_field st o).paragraph
    begun none = h
    begun (some (name, value)) = commit-IsIndexed st h

    over : (o : Option (ℕ × Bytes)) → IsIndexed (parse_with st line o).paragraph
    over none = begun (control_field line)
    over (some (n, rest)) = continued n rest

parse_lines-IsIndexed :
    (lines : List Bytes) (st : ParserState)
    → IsIndexed st.paragraph
    → IsIndexed (parse_lines st lines).paragraph
unfolding parse_lines
parse_lines-IsIndexed [] st h = h
parse_lines-IsIndexed (line ∷ lines) st h =
    parse_lines-IsIndexed lines (parse_line st line)
      (parse_bare_line-IsIndexed st (trim_suffix line (13 ∷ [])) h)

-- Whatever the input, the names of the parsed paragraph are distinct, and its index maps every name
-- to its position among the fields and holds no other name.
pub parse_paragraph-IsIndexed : (input : Bytes) → IsIndexed (parse_paragraph input)
unfolding parse_paragraph
parse_paragraph-IsIndexed input =
    commit-IsIndexed _
      (parse_lines-IsIndexed (split b'\n' (replace_crlf input)) initial IsIndexed-empty)

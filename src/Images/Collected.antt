-- ===== src/Images/Collected.antt =====
-- The images that tools/collect-images.py prints are those of the container specs.
use krateo_openstack_bluepri.Prelude.{
  String, Bool, true, false, Bool-cases, not, ◌&&◌, ◌≡◌, ◌≢◌, ◌↔◌, refl, sym, ap, ◌∙◌, subst, ◌⊎◌,
  inl, inr, Option, none, some, some_inj, none_some, List, [], ◌∷◌, In, In-append_left,
  In-append_right, In-append_cases, if◌then◌else◌, is_empty, strip, contains, contains→In, str_leb,
  In-sort_with, false_true, Value, Fields, Items, null, str, num, real, bool, arr, nil, cons, obj,
  field, end, find, return, return_inj,
}
use krateo_openstack_bluepri.Images.{
  add, has_name, note_image, walk, walk_fields, walk_items, walk_docs, walk_files, printed, main,
}

add-In : (s img : String) (out : List String) → In s (add img out) ↔ (In s out ⊎ (s ≡ img))
unfolding add
add-In s img out = elim (Bool-cases (contains out img)) [
  | inl old ↦ rw old (
    λ m. inl m,
    λ h. elim h [ inl m ↦ m | inr e ↦ subst (λ x. In x out) (sym e) (contains→In out img old) ],
  )
  | inr new ↦ rw new (
    λ m. elim (In-append_cases s out (img ∷ []) m) [
      | inl l ↦ inl l
      | inr (inl e) ↦ inr e
      | inr (inr v) ↦ absurd v
    ],
    λ h. elim h [
      | inl m ↦ In-append_left s out (img ∷ []) m
      | inr e ↦ In-append_right s out (img ∷ []) (inl e)
    ],
  )
]

-- A mapping with a name whose image, without the blanks around it, is the text
abbrev pub IsContainer : Fields → String → Type 0
IsContainer fs s =
    (raw : String) × ((find "image" fs ≡ some (str raw))
      × ((strip raw ≡ s) × ((is_empty s ≡ false) × (has_name fs ≡ true))))

unfoldable mutual
  -- Some mapping in the value is such a container.
  pub Names : Value → String → Type 0
  Names (obj fs) s = IsContainer fs s ⊎ NamesIn fs s
  Names (arr vs) s = NamesAmong vs s
  Names _ s = ⊥

  pub NamesIn : Fields → String → Type 0
  NamesIn end s = ⊥
  NamesIn (field k v fs) s = Names v s ⊎ NamesIn fs s

  pub NamesAmong : Items → String → Type 0
  NamesAmong nil s = ⊥
  NamesAmong (cons v vs) s = Names v s ⊎ NamesAmong vs s

no_text :
    (fs : Fields) (v : Value) (s : String) (out : List String)
    → find "image" fs ≡ some v
    → ((raw : String) → v ≢ str raw)
    → In s out ↔ (In s out ⊎ IsContainer fs s)
no_text fs v s out e other = (
  λ m. inl m,
  λ h. elim h [ inl m ↦ m | inr (raw, (f, _)) ↦ absurd (other raw (some_inj (sym e ∙ f))) ],
)

text-In :
    (fs : Fields) (raw s : String) (out : List String)
    → find "image" fs ≡ some (str raw)
    → In s (note_image fs (some (str raw)) out) ↔ (In s out ⊎ IsContainer fs s)
text-In fs raw s out e = from (is_empty (strip raw)) (has_name fs) refl refl
  where
    same_text : {a b : String} → some (str a) ≡ some (str b) → a ≡ b
    same_text h = cc

    from :
        (b n : Bool)
        → is_empty (strip raw) ≡ b
        → has_name fs ≡ n
        → In s (if not b && n then add (strip raw) out else out) ↔ (In s out ⊎ IsContainer fs s)
    from true n blank named = (
      λ m. inl m,
      λ h. elim h [
        | inl m ↦ m
        | inr (r, (f, (same, (full, _)))) ↦
            false_true
              (sym full ∙ ap is_empty (sym same ∙ ap strip (sym (same_text (sym e ∙ f)))) ∙ blank)
      ],
    )
    from false false full unnamed = (
      λ m. inl m,
      λ h. elim h [
        | inl m ↦ m
        | inr (r, (f, (same, (_, named)))) ↦ false_true (sym unnamed ∙ named)
      ],
    )
    from false true full named =
        let added = add-In s (strip raw) out in
        (
          λ m. elim (added.0 m) [
            | inl l ↦ inl l
            | inr is ↦ inr (raw, (e, (sym is, (ap is_empty is ∙ full, named))))
          ],
          λ h. added.1 (elim h [
            | inl m ↦ inl m
            | inr (r, (f, (same, _))) ↦ inr (sym same ∙ ap strip (sym (same_text (sym e ∙ f))))
          ]),
        )

note-In :
    (fs : Fields) (o : Option Value) (s : String) (out : List String)
    → find "image" fs ≡ o
    → In s (note_image fs o out) ↔ (In s out ⊎ IsContainer fs s)
note-In fs none s out e =
    (λ m. inl m, λ h. elim h [ inl m ↦ m | inr (r, (f, _)) ↦ none_some (sym e ∙ f) ])
note-In fs (some (str raw)) s out e = text-In fs raw s out e
note-In fs (some null) s out e = no_text fs null s out e (λ r h. cc)
note-In fs (some (num n)) s out e = no_text fs (num n) s out e (λ r h. cc)
note-In fs (some (real x)) s out e = no_text fs (real x) s out e (λ r h. cc)
note-In fs (some (bool b)) s out e = no_text fs (bool b) s out e (λ r h. cc)
note-In fs (some (arr vs)) s out e = no_text fs (arr vs) s out e (λ r h. cc)
note-In fs (some (obj gs)) s out e = no_text fs (obj gs) s out e (λ r h. cc)

chain : {A B C D E : Type 0} → A ↔ (B ⊎ D) → B ↔ (C ⊎ E) → A ↔ (C ⊎ (E ⊎ D))
chain f g = (
  λ a. elim (f.0 a) [
    | inl b ↦ elim (g.0 b) [ inl c ↦ inl c | inr e ↦ inr (inl e) ]
    | inr d ↦ inr (inr d)
  ],
  λ h. f.1 (elim h [
    | inl c ↦ inl (g.1 (inl c))
    | inr (inl e) ↦ inl (g.1 (inr e))
    | inr (inr d) ↦ inr d
  ]),
)

same_in : (s : String) (out : List String) → In s out ↔ (In s out ⊎ ⊥)
same_in s out = (λ m. inl m, λ h. elim h [ inl m ↦ m | inr v ↦ absurd v ])

mutual
  unfolding walk Names

  walk-In :
      (v : Value) (s : String) (out : List String) → In s (walk v out) ↔ (In s out ⊎ Names v s)
  walk-In (obj fs) s out =
      chain (walk_fields-In fs s (note_image fs (find "image" fs) out))
        (note-In fs (find "image" fs) s out refl)
  walk-In (arr vs) s out = walk_items-In vs s out
  walk-In (str x) s out = same_in s out
  walk-In (num n) s out = same_in s out
  walk-In (real r) s out = same_in s out
  walk-In (bool b) s out = same_in s out
  walk-In null s out = same_in s out

  walk_fields-In :
      (fs : Fields) (s : String) (out : List String)
      → In s (walk_fields fs out) ↔ (In s out ⊎ NamesIn fs s)
  walk_fields-In end s out = same_in s out
  walk_fields-In (field k v fs) s out = chain (walk_fields-In fs s (walk v out)) (walk-In v s out)

  walk_items-In :
      (vs : Items) (s : String) (out : List String)
      → In s (walk_items vs out) ↔ (In s out ⊎ NamesAmong vs s)
  walk_items-In nil s out = same_in s out
  walk_items-In (cons v vs) s out = chain (walk_items-In vs s (walk v out)) (walk-In v s out)

-- Some document of the list names the image.
unfoldable pub DocsName : List Value → String → Type 0
DocsName [] s = ⊥
DocsName (doc ∷ docs) s = Names doc s ⊎ DocsName docs s

unfoldable pub FilesName : (String → List Value) → List String → String → Type 0
FilesName load [] s = ⊥
FilesName load (path ∷ paths) s = DocsName (load path) s ⊎ FilesName load paths s

walk_docs-In :
    (docs : List Value) (s : String) (out : List String)
    → In s (walk_docs docs out) ↔ (In s out ⊎ DocsName docs s)
unfolding walk_docs DocsName
walk_docs-In [] s out = same_in s out
walk_docs-In (doc ∷ docs) s out = chain (walk_docs-In docs s (walk doc out)) (walk-In doc s out)

walk_files-In :
    (load : String → List Value) (paths : List String) (s : String) (out : List String)
    → In s (walk_files load paths out) ↔ (In s out ⊎ FilesName load paths s)
unfolding walk_files FilesName
walk_files-In load [] s out = same_in s out
walk_files-In load (path ∷ paths) s out =
    chain (walk_files-In load paths s (walk_docs (load path) out)) (walk_docs-In (load path) s out)

printed-In :
    (found images : List String)
    → printed found ≡ return images
    → (s : String) → In s images ↔ In s found
printed-In [] images h s = cc
printed-In (x ∷ found) images h s =
    subst (λ (is : List String). In s is ↔ In s (x ∷ found)) (return_inj h)
      (In-sort_with str_leb s (x ∷ found))

-- When images are printed, they are those that the documents of the given files name: an image is
-- printed exactly when some mapping in a document, at any depth, has a name and this image.
pub main-Names :
    (load : String → List Value) (argv images : List String)
    → main load argv ≡ return images
    → (s : String) → In s images ↔ FilesName load argv s
unfolding main
main-Names load [] images h s = cc
main-Names load (path ∷ paths) images h s =
    let order = printed-In (walk_files load (path ∷ paths) []) images h s in
    let found = walk_files-In load (path ∷ paths) s [] in
    (
      λ m. elim (found.0 (order.0 m)) [ inl v ↦ absurd v | inr f ↦ f ],
      λ f. order.1 (found.1 (inr f)),
    )

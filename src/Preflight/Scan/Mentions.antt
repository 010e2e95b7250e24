-- ===== src/Preflight/Scan/Mentions.antt =====
-- The images that a line of a scanned file mentions in hack/preflight-refs.py, and that `scan_line` records.
use krateo_openstack_bluepri.Prelude.{
  ℕ, String, Bool, true, false, Bool-cases, ◌≡◌, ◌⊎◌, refl, sym, subst, arith, inl, inr, Option,
  none, some, List, [], ◌∷◌, In, In-append_left, In-append_right, any, eq_iff, ◌+++◌, ◌&&◌,
  if◌then◌else◌, is_empty, ◌||◌, not, has_char, false_true,
}
use krateo_openstack_bluepri.Preflight.Pairing.{
  DigestMatch, ImageMatch, ChartMatch, Image, Patterns, pair_version, pair_name, split_image,
}
use krateo_openstack_bluepri.Preflight.Scan.{
  Ref, same_ref, add, Found, each, unreachable, trim_path, versioned, below_root, is_root, is_link,
  ref, chart_match, digest_match, image_match, split_match, scan_line,
}

-- No image is lost from the first to the second.
abbrev pub Grows : Found → Found → Type 0
Grows f g = (r : Ref) → In r f.images → In r g.images

abbrev AlwaysGrows : (Found → Found) → Type 0
AlwaysGrows step = (f : Found) → Grows f (step f)

pub if_has :
    (r : Ref) (b : Bool) (g h : Found)
    → In r g.images
    → In r h.images
    → In r (if b then g else h).images
if_has r true g h p q = p
if_has r false g h p q = q

same_ref-eq : (a b : Ref) → same_ref a b ≡ true → a ≡ b
same_ref-eq a b h =
    ground
      (arith, eq_iff a.host b.host, eq_iff a.path b.path, eq_iff a.tag b.tag, eq_iff a.file b.file)

any-In : (r : Ref) (refs : List Ref) → any (same_ref r) refs ≡ true → In r refs
any-In r [] h = absurd (false_true h)
any-In r (q ∷ refs) h = elim (Bool-cases (same_ref r q)) [
  | inl same ↦ inl (same_ref-eq r q same)
  | inr apart ↦ inr (any-In r refs (rw apart at h))
]

add-Grows : (x r : Ref) (refs : List Ref) → In r refs → In r (add x refs)
unfolding add
add-Grows x r refs m = elim (Bool-cases (any (same_ref x) refs)) [
  | inl old ↦ rw (old, add) m
  | inr new ↦ rw (new, add) (In-append_left r refs (x ∷ []) m)
]

add_has : (r : Ref) (refs : List Ref) → In r (add r refs)
unfolding add
add_has r refs = elim (Bool-cases (any (same_ref r) refs)) [
  | inl old ↦ rw (old, add) (any-In r refs old)
  | inr new ↦ rw (new, add) (In-append_right r refs (r ∷ []) (inl refl))
]

module _ {A : Type 0} (step : A → Found → Found) (grows : (a : A) → AlwaysGrows (step a)) where
  each-Grows : (ms : List A) → AlwaysGrows (each step ms)
  each-Grows [] f r m = m
  each-Grows (a ∷ ms) f r m = each-Grows ms (step a f) r (grows a f r m)

  each_has :
      (r : Ref) (a : A) (ms : List A)
      → In a ms
      → ((f : Found) → In r (step a f).images)
      → (f : Found) → In r (each step ms f).images
  each_has r a [] m has f = absurd m
  each_has r a (b ∷ ms) (inl e) has f =
      each-Grows ms (step b f) r (subst (λ c. In r (step c f).images) e (has f))
  each_has r a (b ∷ ms) (inr later) has f = each_has r a ms later has (step b f)

module _ (pat : Patterns) (rel : String) (lines : List String) (i : ℕ) where
  versioned-Grows :
      (host path : String) (ver : Option String)
      → AlwaysGrows (versioned pat rel lines i host path ver)
  versioned-Grows host path none f r h = h
  versioned-Grows host path (some ver) f r h = if_has r (is_empty ver) _ _ h h

  root-Grows :
      (host path : String) (ver nm : Option String)
      → AlwaysGrows (below_root pat rel lines i host path ver nm)
  root-Grows host path ver none f r h = h
  root-Grows host path ver (some nm) f r h =
      if_has r (is_empty nm) _ _ h (versioned-Grows host (path +++ "/" +++ nm) ver f r h)

  chart-Grows : (m : ChartMatch) → AlwaysGrows (chart_match pat rel lines i m)
  unfolding chart_match
  chart-Grows m f r h =
      let path = trim_path m.path in
      let ver = pair_version pat lines i in
      if_has r (pat.skip m.whole) _ _ h (
        if_has r (is_root path) _ _ (root-Grows m.host path ver (pair_name pat lines i) f r h)
          (versioned-Grows m.host path ver f r h))

  digest-Grows : (m : DigestMatch) → AlwaysGrows (digest_match pat rel lines i m)
  unfolding digest_match
  digest-Grows m f r h =
      if_has r (unreachable m.host) _ _ h
        (add-Grows (ref pat rel lines i m.host m.path m.digest) r f.images h)

  split-Grows : (im : Option Image) → AlwaysGrows (split_match pat rel lines i im)
  split-Grows none f r h = h
  split-Grows (some im) f r h = add-Grows (ref pat rel lines i im.host im.path im.tag) r f.images h

  image-Grows : (m : ImageMatch) → AlwaysGrows (image_match pat rel lines i m)
  unfolding image_match
  image-Grows m f r h = if_has r (pat.skip m.whole || unreachable m.host) _ _ h (
      if_has r (is_link m) _ _ h (
        if_has r (not (has_char b'/' m.path) && not (has_char b'.' m.host)) _ _ h
          (add-Grows (ref pat rel lines i m.host m.path m.tag) r f.images h)))

  pub line-Grows : (line : String) → AlwaysGrows (scan_line pat rel lines i line)
  unfolding scan_line
  line-Grows line f r h =
      let charts = each (chart_match pat rel lines i) (pat.oci line) f in
      let digests = each (digest_match pat rel lines i) (pat.digest line) charts in
      let halves = split_match pat rel lines i (split_image pat lines i) digests in
      each-Grows (image_match pat rel lines i) image-Grows (pat.img line) halves r (
        split-Grows (split_image pat lines i) digests r (
          each-Grows (digest_match pat rel lines i) digest-Grows (pat.digest line) charts r
            (each-Grows (chart_match pat rel lines i) chart-Grows (pat.oci line) f r h)))

  -- A match of IMG that counts as an image
  abbrev pub Counts : ImageMatch → Type 0
  Counts m =
      (pat.skip m.whole || unreachable m.host ≡ false)
      × ((is_link m ≡ false) × (not (has_char b'/' m.path) && not (has_char b'.' m.host) ≡ false))

  -- The line mentions an image: by a digest, in the lines of a repository and its tag, or at once.
  abbrev pub Mentions : String → Image → Type 0
  Mentions line im =
      ((m : DigestMatch) × (In m (pat.digest line)
          × ((unreachable m.host ≡ false)
              × (im ≡ record { host = m.host; path = m.path; tag = m.digest }))))
      ⊎ ((split_image pat lines i ≡ some im)
          ⊎ ((m : ImageMatch) × (In m (pat.img line)
                × (Counts m × (im ≡ record { host = m.host; path = m.path; tag = m.tag })))))

  digest_has :
      (m : DigestMatch)
      → unreachable m.host ≡ false
      → (f : Found)
      → In (ref pat rel lines i m.host m.path m.digest) (digest_match pat rel lines i m f).images
  unfolding digest_match
  digest_has m ok f =
      rw (ok, digest_match) (add_has (ref pat rel lines i m.host m.path m.digest) f.images)

  image_has :
      (m : ImageMatch)
      → Counts m
      → (f : Found)
      → In (ref pat rel lines i m.host m.path m.tag) (image_match pat rel lines i m f).images
  unfolding image_match
  image_has m (kept, (unlinked, plain)) f =
      rw (kept, unlinked, plain, image_match)
        (add_has (ref pat rel lines i m.host m.path m.tag) f.images)

  pub line_has :
      (line : String) (im : Image)
      → Mentions line im
      → (f : Found)
      → In (ref pat rel lines i im.host im.path im.tag) (scan_line pat rel lines i line f).images
  unfolding scan_line
  line_has line im mention f =
      let charts = each (chart_match pat rel lines i) (pat.oci line) f in
      let digests = each (digest_match pat rel lines i) (pat.digest line) charts in
      let halves = split_match pat rel lines i (split_image pat lines i) digests in
      let later = each-Grows (image_match pat rel lines i) image-Grows (pat.img line) halves in
      elim mention [
        | inl (m, (member, (ok, same))) ↦
            let r = ref pat rel lines i m.host m.path m.digest in
            later (ref pat rel lines i im.host im.path im.tag) (
              split-Grows (split_image pat lines i) digests
                (ref pat rel lines i im.host im.path im.tag)
                (subst (λ (w : Image). In (ref pat rel lines i w.host w.path w.tag) digests.images)
                  (sym same)
                  (each_has (digest_match pat rel lines i) digest-Grows r m (pat.digest line) member
                    (digest_has m ok) charts)))
        | inr (inl split) ↦
            later (ref pat rel lines i im.host im.path im.tag)
              (rw split (add_has (ref pat rel lines i im.host im.path im.tag) digests.images))
        | inr (inr (m, (member, (counts, same)))) ↦
            let r = ref pat rel lines i m.host m.path m.tag in
            subst
              (λ (w : Image).
                In (ref pat rel lines i w.host w.path w.tag)
                  (each (image_match pat rel lines i) (pat.img line) halves).images)
              (sym same)
              (each_has (image_match pat rel lines i) image-Grows r m (pat.img line) member
                (image_has m counts) halves)
      ]

-- ===== src/Preflight/Scan/Complete.antt =====
-- What `scan` of hack/preflight-refs.py does not miss in a tree of files.
use krateo_openstack_bluepri.Prelude.{
  ℕ, zero, suc, ◌+◌, String, true, false, ◌≡◌, ◌⊎◌, sym, subst, arith, inl, inr, Option, none, some,
  List, [], ◌∷◌, In, ◌+++◌, split_on, if◌then◌else◌, none_some, some_inj,
}
use krateo_openstack_bluepri.Preflight.Pairing.{Image, Patterns, nth}
use krateo_openstack_bluepri.Preflight.Scan.{
  File, Folder, Folders, folder, end, named, Ref, Found, ref, scan_line, scan_lines, is_source,
  scan_text, scan_files, is_skipped, scan_folder, scan_folders, scan,
}
use krateo_openstack_bluepri.Preflight.Scan.Mentions.{Grows, Mentions, if_has, line-Grows, line_has}

unfoldable mutual
  -- The file stands at the path, below directories that are not passed over.
  pub Holds : String → Folder → String → File → Type 0
  Holds dir (folder files subs) path file =
      (In file files × (path ≡ dir +++ file.name)) ⊎ HoldsBelow dir subs path file

  pub HoldsBelow : String → Folders → String → File → Type 0
  HoldsBelow dir end path file = ⊥
  HoldsBelow dir (named d sub more) path file =
      ((is_skipped d ≡ false) × Holds (dir +++ d +++ "/") sub path file)
      ⊎ HoldsBelow dir more path file

-- The entry of the set for the image at that place
abbrev pub entry : String → ℕ → Image → Ref
entry path j im = record { host = im.host; path = im.path; tag = im.tag; file = path; line = suc j }

module _ (pat : Patterns) where
  lines-Grows :
      (rel : String) (lines : List String) (i : ℕ) (ls : List String) (f : Found)
      → Grows f (scan_lines pat rel lines i ls f)
  unfolding scan_lines
  lines-Grows rel lines i [] f r h = h
  lines-Grows rel lines i (l ∷ ls) f r h =
      lines-Grows rel lines (suc i) ls (scan_line pat rel lines i l f) r
        (line-Grows pat rel lines i l f r h)

  lines_have :
      (rel : String) (lines : List String) (i k j : ℕ) (ls : List String) (line : String)
      (im : Image)
      → nth ls k ≡ some line
      → i + k ≡ j
      → Mentions pat rel lines j line im
      → (f : Found)
      → In (ref pat rel lines j im.host im.path im.tag) (scan_lines pat rel lines i ls f).images
  unfolding scan_lines
  lines_have rel lines i k j [] line im at place mention f = none_some at
  lines_have rel lines i zero j (l ∷ ls) line im at place mention f =
      let i_j : j ≡ i = omega (arith, place) in
      let first =
        line_has pat rel lines i line im (subst (λ n. Mentions pat rel lines n line im) i_j mention)
          f in
      let r = ref pat rel lines i im.host im.path im.tag in
      subst
        (λ n.
          In (ref pat rel lines n im.host im.path im.tag)
            (scan_lines pat rel lines i (l ∷ ls) f).images)
        (sym i_j)
        (lines-Grows rel lines (suc i) ls (scan_line pat rel lines i l f) r
          (subst (λ x. In r (scan_line pat rel lines i x f).images) (sym (some_inj at)) first))
  lines_have rel lines i (suc k) j (l ∷ ls) line im at place mention f =
      lines_have rel lines (suc i) k j ls line im at (omega (arith, place)) mention
        (scan_line pat rel lines i l f)

  text-Grows :
      (rel : String) (text : Option String) (f : Found) → Grows f (scan_text pat rel text f)
  text-Grows rel none f r h = h
  text-Grows rel (some text) f r h = lines-Grows rel (split_on 10 text) 0 (split_on 10 text) f r h

  files-Grows :
      (dir : String) (files : List File) (f : Found) → Grows f (scan_files pat dir files f)
  unfolding scan_files
  files-Grows dir [] f r h = h
  files-Grows dir (file ∷ files) f r h =
      files-Grows dir files _ r
        (if_has r (is_source file.name) _ f (text-Grows (dir +++ file.name) file.text f r h) h)

  -- The file has a text with the line, which mentions the image.
  abbrev pub Shows : String → File → ℕ → Image → Type 0
  Shows path file j im =
      (is_source file.name ≡ true)
      × ((text : String) × ((file.text ≡ some text)
            × ((line : String) × ((nth (split_on 10 text) j ≡ some line)
                  × Mentions pat path (split_on 10 text) j line im))))

  files_have :
      (dir : String) (files : List File) (file : File) (j : ℕ) (im : Image)
      → In file files
      → Shows (dir +++ file.name) file j im
      → (f : Found) → In (entry (dir +++ file.name) j im) (scan_files pat dir files f).images
  unfolding scan_files
  files_have dir [] file j im m shows f = absurd m
  files_have dir (x ∷ files) file j im (inl e) (source, (text, (is_text, (line, (at, mention)))))
        f =
      files-Grows dir files _ (entry (dir +++ file.name) j im) (
        subst
          (λ (y : File).
            In (entry (dir +++ file.name) j im)
              (if is_source y.name then scan_text pat (dir +++ y.name) y.text f else f).images)
          e
          (rw (source, is_text)
            (lines_have (dir +++ file.name) (split_on 10 text) 0 j j (split_on 10 text) line im at
              (omega arith) mention f)))
  files_have dir (x ∷ files) file j im (inr later) shows f =
      files_have dir files file j im later shows _

  mutual
    unfolding scan_folder

    folder-Grows : (dir : String) (fo : Folder) (f : Found) → Grows f (scan_folder pat dir fo f)
    folder-Grows dir (folder files subs) f r h =
        folders-Grows dir subs _ r (files-Grows dir files f r h)

    folders-Grows :
        (dir : String) (subs : Folders) (f : Found) → Grows f (scan_folders pat dir subs f)
    folders-Grows dir end f r h = h
    folders-Grows dir (named d sub more) f r h =
        folders-Grows dir more _ r
          (if_has r (is_skipped d) f _ h (folder-Grows (dir +++ d +++ "/") sub f r h))

  mutual
    unfolding Holds scan_folder

    folder_has :
        (dir : String) (fo : Folder) (path : String) (file : File) (j : ℕ) (im : Image)
        → Holds dir fo path file
        → Shows path file j im
        → (f : Found) → In (entry path j im) (scan_folder pat dir fo f).images
    folder_has dir (folder files subs) path file j im (inl (m, e)) shows f =
        folders-Grows dir subs _ (entry path j im) (
          subst (λ p. In (entry p j im) (scan_files pat dir files f).images) (sym e)
            (files_have dir files file j im m (subst (λ p. Shows p file j im) e shows) f))
    folder_has dir (folder files subs) path file j im (inr below) shows f =
        folders_have dir subs path file j im below shows (scan_files pat dir files f)

    folders_have :
        (dir : String) (subs : Folders) (path : String) (file : File) (j : ℕ) (im : Image)
        → HoldsBelow dir subs path file
        → Shows path file j im
        → (f : Found) → In (entry path j im) (scan_folders pat dir subs f).images
    folders_have dir end path file j im below shows f = absurd below
    folders_have dir (named d sub more) path file j im (inl (kept, inside)) shows f =
        folders-Grows dir more _ (entry path j im)
          (rw kept (folder_has (dir +++ d +++ "/") sub path file j im inside shows f))
    folders_have dir (named d sub more) path file j im (inr later) shows f =
        folders_have dir more path file j im later shows _

  -- An image that a line of a YAML, template or JSON file of the tree mentions is in the set, with its
  -- place, unless a directory on the way there is named .git, node_modules or charts.
  pub scan_complete :
      (root : Folder) (path : String) (file : File) (j : ℕ) (im : Image)
      → Holds "" root path file
      → Shows path file j im
      → In (entry path j im) (scan pat root).images
  unfolding scan
  scan_complete root path file j im holds shows = folder_has "" root path file j im holds shows _

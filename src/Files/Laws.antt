-- ===== src/Files/Laws.antt =====
-- src/services/files.rs: what an upload may add, and the quota of a user.
use bbs_rs.Prelude.{
  ℕ, suc, ◌+◌, ◌≤◌, ◌<◌, ◌≡◌, refl, sym, ap, ◌∙◌, ◌⊎◌, inl, inr, Bool, true, false, not, ◌&&◌, List,
  [], ◌∷◌, ◌++◌, none, Text, codes, ◌==◌, ==_iff, ltb, find, update_where, find-append_none,
  Bool-cases, All, arith, if◌then◌else◌, ℤ, ◌+ℤ◌, amount, amount-add, add_assoc, add-zero, zero_add,
  decimal,
}
use bbs_rs.Error.{Result, ok, err, Result-cases, bind-ok}
use bbs_rs.Accounts.Tables.{User, is_admin}
use bbs_rs.Accounts.Admin.{select}
use bbs_rs.Files.{
  FileArea, FileEntry, Library, Policy, get_area, get_file, total, user_usage, basename,
  extension_allowed, allowed, fits, within_quota, checks, new_file, add_file,
}

-- The ids of the files are below the next one.
abbrev pub HasFreshFile : Library → Type 0
HasFreshFile lib = All (λ (f : FileEntry). f.id < lib.next_file) lib.files

abbrev stored_path : FileEntry → Text
stored_path f = decimal f.id ++ (codes "-" ++ f.filename)

-- What an upload may do: be refused and change nothing, or add one file.
abbrev pub Adds :
    ℕ → User → Text → Text → ℤ → Policy → ℕ → Library → Result FileEntry × Library → Type 0
Adds area_id uploader filename description size policy now lib (err e, lib') = lib' ≡ lib
Adds area_id uploader filename description size policy now lib (ok f, lib') =
    let name = basename filename in
    let new = new_file area_id uploader name description size now lib in
    ((a : FileArea) × (get_area area_id lib ≡ ok a))
    × (extension_allowed policy name ≡ true)
    × ((policy.max_file_bytes ≡ 0) ⊎ (amount size ≤ policy.max_file_bytes))
    × ((policy.user_quota_bytes ≡ 0)
        ⊎ ((is_admin uploader ≡ true)
            ⊎ (amount (user_usage uploader.id lib) + amount size ≤ policy.user_quota_bytes)))
    × (f ≡ record new { storage_path = stored_path new })
    × (lib' ≡ record lib { files = lib.files ++ f ∷ []; next_file = suc lib.next_file })

find-none_of_fresh :
    (n : ℕ) (fs : List FileEntry)
    → All (λ (f : FileEntry). f.id < n) fs
    → find (λ (f : FileEntry). f.id == n) fs ≡ none
find-none_of_fresh n [] h = refl
find-none_of_fresh n (f ∷ fs) (lt, rest) =
    let miss : (f.id == n) ≡ false = ground arith in rw miss (find-none_of_fresh n fs rest)

-- A change of the rows of a fresh id reaches the last row only.
update_where-last :
    (g : FileEntry → FileEntry) (f : FileEntry) (fs : List FileEntry)
    → All (λ (h : FileEntry). h.id < f.id) fs
    → update_where (λ h. h.id == f.id) g (fs ++ f ∷ []) ≡ fs ++ g f ∷ []
update_where-last g f [] h = let same = (==_iff f.id f.id).1 refl in rw same refl
update_where-last g f (x ∷ fs) (lt, rest) =
    let miss : (x.id == f.id) ≡ false = ground arith in
    rw miss (ap (x ∷◌) (update_where-last g f fs rest))

allowed-ok :
    (policy : Policy) (name : Text) {t : Unit {0}}
    → allowed policy name ≡ ok t
    → extension_allowed policy name ≡ true
allowed-ok policy name e = elim (Bool-cases (extension_allowed policy name)) [
  | inl fine ↦ fine
  | inr bad ↦ cc (rw bad at e)
]

fits-ok :
    (policy : Policy) (size : ℤ) {t : Unit {0}}
    → fits policy size ≡ ok t
    → (policy.max_file_bytes ≡ 0) ⊎ (amount size ≤ policy.max_file_bytes)
fits-ok policy size e =
    elim (Bool-cases (ltb 0 policy.max_file_bytes && ltb policy.max_file_bytes (amount size))) [
      | inl large ↦ cc (rw large at e)
      | inr small ↦ ground (arith, small)
    ]

within_quota-ok :
    (policy : Policy) (uploader : User) (size : ℤ) (lib : Library) {t : Unit {0}}
    → within_quota policy uploader size lib ≡ ok t
    → (policy.user_quota_bytes ≡ 0)
      ⊎ ((is_admin uploader ≡ true)
          ⊎ (amount (user_usage uploader.id lib) + amount size ≤ policy.user_quota_bytes))
within_quota-ok policy uploader size lib e =
    elim (Bool-cases (
      ltb 0 policy.user_quota_bytes
      && not (is_admin uploader)
      && ltb policy.user_quota_bytes (amount (user_usage uploader.id lib) + amount size))) [
        | inl over ↦ cc (rw over at e)
        | inr under ↦ ground (arith, under)
      ]

-- An upload either is refused and changes nothing, or the area exists, the extension is allowed,
-- the size is in the limit, the uploader stays in the quota (operators have none), and exactly one
-- file is added, under its bare name and with its id in its path. The ids of the files are below
-- the next one.
pub add_file-Adds :
    (area_id : ℕ) (uploader : User) (filename description : Text) (size : ℤ) (policy : Policy)
    (now : ℕ) (lib : Library)
    → HasFreshFile lib
    → Adds area_id uploader filename description size policy now lib
        (add_file area_id uploader filename description size policy now lib)
unfolding add_file get_file
add_file-Adds area_id uploader filename description size policy now lib fresh =
    let name = basename filename in
    let new = new_file area_id uploader name description size now lib in
    let f = record new { storage_path = stored_path new } in
    elim (Result-cases (checks area_id uploader name size policy lib)) [
      | inl (e, bad) ↦ rw bad refl
      | inr (t, good) ↦
          let (a, here, rest) = bind-ok (get_area area_id lib) _ good in
          let (_, ext, rest2) = bind-ok (allowed policy name) _ rest in
          let (_, small, quota) = bind-ok (fits policy size) _ rest2 in
          let changed =
            update_where-last (λ g. record g { storage_path = stored_path new }) new lib.files
              fresh in
          let found =
            find-append_none (λ (g : FileEntry). g.id == lib.next_file) lib.files f
              (find-none_of_fresh lib.next_file lib.files fresh)
              ((==_iff lib.next_file lib.next_file).1 refl) in
          rw (good, changed, found)
            (
              (a, here),
              allowed-ok policy name ext,
              fits-ok policy size small,
              within_quota-ok policy uploader size lib quota,
              refl,
              refl,
            )
    ]

-- The total of the chosen files, one more being put behind them
total-snoc :
    (p : FileEntry → Bool) (fs : List FileEntry) (f : FileEntry)
    → total (select p (fs ++ f ∷ []))
      ≡ (if p f then total (select p fs) +ℤ f.size else total (select p fs))
total-snoc p [] f = elim (Bool-cases (p f)) [
  | inl hit ↦ rw hit (add-zero f.size ∙ sym (zero_add f.size))
  | inr miss ↦ rw miss refl
]
total-snoc p (g ∷ fs) f = elim (Bool-cases (p g)) [
  | inr miss ↦ rw miss (total-snoc p fs f)
  | inl hit ↦ elim (Bool-cases (p f)) [
    | inl more ↦
        let ih : total (select p (fs ++ f ∷ [])) ≡ total (select p fs) +ℤ f.size =
          (rw more at (total-snoc p fs f)) in
        rw (hit, more) (ap (g.size +ℤ◌) ih ∙ sym (add_assoc g.size (total (select p fs)) f.size))
    | inr same ↦
        let ih : total (select p (fs ++ f ∷ [])) ≡ total (select p fs) =
          (rw same at (total-snoc p fs f)) in
        rw (hit, same) (ap (g.size +ℤ◌) ih)
  ]
]

abbrev pub IsWithinQuota : Policy → ℕ → Library → Type 0
IsWithinQuota policy user_id lib = amount (user_usage user_id lib) ≤ policy.user_quota_bytes

module _ (area_id : ℕ) (uploader : User) (filename description : Text) (size : ℤ) (policy : Policy)
    (now : ℕ) (lib : Library) where
  Adds-IsWithinQuota :
      (user_id : ℕ) (r : Result FileEntry × Library)
      → Adds area_id uploader filename description size policy now lib r
      → is_admin uploader ≡ false
      → 0 < policy.user_quota_bytes
      → IsWithinQuota policy user_id lib
      → IsWithinQuota policy user_id r.1
  unfolding user_usage
  Adds-IsWithinQuota user_id (err e, lib') h plain some_quota within = rw h within
  Adds-IsWithinQuota user_id (ok f, lib') h plain some_quota within =
      let mine = λ (g : FileEntry). g.uploader_id == user_id in
      let before = total (select mine lib.files) in
      let after = total (select mine (lib.files ++ f ∷ [])) in
      let grown : amount after ≤ policy.user_quota_bytes = elim (Bool-cases (mine f)) [
        | inr other ↦
            let same : after ≡ before = rw other at (total-snoc mine lib.files f) in rw same within
        | inl own ↦
            let sum : after ≡ before +ℤ f.size = rw own at (total-snoc mine lib.files f) in
            let is_size : f.size ≡ size = ap (λ (g : FileEntry). g.size) h.4 in
            let is_uploader : uploader.id ≡ user_id =
              sym (ap (λ (g : FileEntry). g.uploader_id) h.4)
              ∙ (==_iff f.uploader_id user_id).0 own in
            elim h.3 [
              | inl no_quota ↦ absurd (omega arith)
              | inr (inl admin) ↦ absurd (cc (admin, plain))
              | inr (inr room) ↦
                  let room2 : amount before + amount size ≤ policy.user_quota_bytes =
                    rw is_uploader at room in
                  rw (sum, is_size) (omega (arith, amount-add before size, room2))
            ]
      ] in
      rw h.5 grown

  -- Whatever comes of an upload by a user who is no operator, every user within the quota stays
  -- within it, where a quota is set and the ids of the files are below the next one.
  pub add_file-IsWithinQuota :
      (user_id : ℕ)
      → HasFreshFile lib
      → is_admin uploader ≡ false
      → 0 < policy.user_quota_bytes
      → IsWithinQuota policy user_id lib
      → IsWithinQuota policy user_id
          (add_file area_id uploader filename description size policy now lib).1
  add_file-IsWithinQuota user_id fresh =
      Adds-IsWithinQuota user_id
        (add_file area_id uploader filename description size policy now lib)
        (add_file-Adds area_id uploader filename description size policy now lib fresh)

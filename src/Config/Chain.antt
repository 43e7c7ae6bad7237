-- ===== src/Config/Chain.antt =====
-- What a chain of configuration files comes to.
use taskrunner.Prelude.{
  ℕ, zero, suc, ◌≡◌, refl, sym, ap, subst, ◌∙◌, ◌≤◌, ◌↔◌, ◌⊎◌, inl, inr, Option, none, some, List,
  [], ◌∷◌, Text, In, arith, Option-cases, length,
}
use taskrunner.Config.{
  ConfigFile, Config, Os, Result, out_of_fuel, failed, ok, or_nil, resolve_working_dir, to_config,
  read_config_file, merged_tasks, with_file, with_base, read_config, add_keys, config_in,
}
use taskrunner.Config.Merge.{add_keys_lem}

-- The file at a path, the file that it extends, and so on to one that extends none.
pub data Chain (os : Os) : Text → List ConfigFile → Type 0 where
  base :
      {p : Text} {f : ConfigFile}
      → read_config_file os p ≡ some f
      → f.extends ≡ none
      → Chain os p (f ∷ [])
  extending :
      {p e q : Text} {f : ConfigFile} {fs : List ConfigFile}
      → read_config_file os p ≡ some f
      → f.extends ≡ some e
      → os.abs (os.join (os.dir p) e) ≡ some q
      → Chain os q fs
      → Chain os p (f ∷ fs)

-- One of the files gives the task.
abbrev pub Names : Text → List ConfigFile → Type 0
Names t [] = ⊥
Names t (f ∷ fs) = In t (or_nil f.desired_tasks) ⊎ Names t fs

module _ (os : Os) where
  -- The path of the first file that gives one, as that file resolves it.
  abbrev pub working_dir_of : List ConfigFile → Option Text
  working_dir_of [] = none
  working_dir_of (f ∷ fs) = elim f.path [
    | none ↦ working_dir_of fs
    | some path ↦ resolve_working_dir os f.config_path path
  ]

  abbrev pub IsUnresolved : ConfigFile → Type 0
  IsUnresolved f =
      (path : Text) × (f.path ≡ some path) × (resolve_working_dir os f.config_path path ≡ none)

  -- A file whose path does not resolve, or a last file without a path.
  abbrev pub Fails : List ConfigFile → Type 0
  Fails [] = ⊥
  Fails (f ∷ []) = IsUnresolved f ⊎ (f.path ≡ none)
  Fails (f ∷ g ∷ fs) = IsUnresolved f ⊎ Fails (g ∷ fs)

  abbrev pub first_path : List ConfigFile → Text
  first_path [] = []
  first_path (f ∷ fs) = f.config_path

  abbrev pub Describes : List ConfigFile → Result → Type 0
  Describes fs out_of_fuel = ⊥
  Describes fs failed = Fails fs
  Describes fs (ok c) =
      (working_dir_of fs ≡ some c.working_dir)
      × (c.config_path ≡ first_path fs)
      × ((t : Text) → In t c.desired_tasks ↔ Names t fs)
      × (¬ (Fails fs))

  not_without_path : (f : ConfigFile) → f.path ≡ none → ¬ (IsUnresolved f)
  not_without_path f e (path, q, r) = absurd (ground arith)

  not_resolved :
      (f : ConfigFile) (path dir : Text)
      → f.path ≡ some path
      → resolve_working_dir os f.config_path path ≡ some dir
      → ¬ (IsUnresolved f)
  not_resolved f path dir e r (path', q, r') =
      let same : path ≡ path' = cc in
      let there = ap (resolve_working_dir os f.config_path) same ∙ r' in absurd (ground arith)

  -- A path that resolves is one.
  sound_base :
      (f : ConfigFile) (path dir : Text)
      → f.path ≡ some path
      → resolve_working_dir os f.config_path path ≡ some dir
      → ¬ (Fails (f ∷ []))
  sound_base f path dir e r (inl u) = not_resolved f path dir e r u
  sound_base f path dir e r (inr n) = absurd (ground arith)

  sound_extending :
      (f g : ConfigFile) (fs : List ConfigFile)
      → ¬ (IsUnresolved f)
      → ¬ (Fails (g ∷ fs))
      → ¬ (Fails (f ∷ g ∷ fs))
  sound_extending f g fs here there (inl u) = here u
  sound_extending f g fs here there (inr h) = there h

  to_config-none : (f : ConfigFile) → f.path ≡ none → to_config os f ≡ failed
  unfolding to_config
  to_config-none f e = ground arith

  to_config-some :
      (f : ConfigFile) (path : Text)
      → f.path ≡ some path
      → to_config os f
        ≡ config_in os f.config_path
            (or_nil f.desired_tasks)
            (resolve_working_dir os f.config_path path)
  unfolding to_config
  to_config-some f path e = ground arith

  working_dir_of-some :
      (f : ConfigFile) (fs : List ConfigFile) (path : Text)
      → f.path ≡ some path
      → working_dir_of (f ∷ fs) ≡ resolve_working_dir os f.config_path path
  working_dir_of-some f fs path e = ground arith

  working_dir_of-none :
      (f : ConfigFile) (fs : List ConfigFile)
      → f.path ≡ none
      → working_dir_of (f ∷ fs) ≡ working_dir_of fs
  working_dir_of-none f fs e = ground arith

  abbrev IsCons : List ConfigFile → Type 0
  IsCons [] = ⊥
  IsCons (f ∷ fs) = Unit

  Chain-IsCons : (p : Text) (fs : List ConfigFile) → Chain os p fs → IsCons fs
  Chain-IsCons p _ (base r e) = tt
  Chain-IsCons p _ (extending r e a chain) = tt

  too_long : (p : Text) (fs : List ConfigFile) → Chain os p fs → length fs ≤ 0 → ⊥
  too_long p _ (base r e) h = omega (arith, h)
  too_long p _ (extending r e a chain) h = omega (arith, h)

  to_config-Describes : (f : ConfigFile) → Describes (f ∷ []) (to_config os f)
  to_config-Describes f = elim (Option-cases f.path) [
    | inl e ↦ subst (Describes (f ∷ [])) (sym (to_config-none f e)) (inr e)
    | inr (path, e) ↦
        subst (Describes (f ∷ [])) (sym (to_config-some f path e))
          (elim (Option-cases (resolve_working_dir os f.config_path path)) [
            | inl r ↦ rw r (inl (path, e, r))
            | inr (dir, r) ↦ rw r (
              working_dir_of-some f [] path e ∙ r,
              refl,
              λ t. (λ i. inl i, λ c. elim c [ inl i ↦ i | inr n ↦ absurd n ]),
              sound_base f path dir e r,
            )
          ])
  ]

  module _ (iterate : List Text → List Text)
      (same : (l : List Text) (t : Text) → In t (iterate l) ↔ In t l) where
    merged_tasks_lem :
        (ts : List Text) (o : Option (List Text)) (t : Text)
        → In t (merged_tasks os iterate ts o) ↔ (In t (or_nil o) ⊎ In t ts)
    merged_tasks_lem ts none t = (λ i. inr i, λ c. elim c [ inl n ↦ absurd n | inr i ↦ i ])
    merged_tasks_lem ts (some us) t =
        let (to, back) = same (add_keys us (add_keys ts [])) t in
        let (to', back') = add_keys_lem us t (add_keys ts []) in
        let (to'', back'') = add_keys_lem ts t [] in
        (
          λ i. elim (to' (to i)) [
            | inl j ↦ inl j
            | inr j ↦ elim (to'' j) [ inl k ↦ inr k | inr n ↦ absurd n ]
          ],
          λ c. elim c [
            | inl j ↦ back (back' (inl j))
            | inr k ↦ back (back' (inr (back'' (inl k))))
          ],
        )

    with_file-none :
        (c : Config) (f : ConfigFile)
        → f.path ≡ none
        → with_file os iterate c f
          ≡ config_in os f.config_path
              (merged_tasks os iterate c.desired_tasks f.desired_tasks)
              (some c.working_dir)
    unfolding with_file
    with_file-none c f e = ground arith

    with_file-some :
        (c : Config) (f : ConfigFile) (path : Text)
        → f.path ≡ some path
        → with_file os iterate c f
          ≡ config_in os f.config_path
              (merged_tasks os iterate c.desired_tasks f.desired_tasks)
              (resolve_working_dir os f.config_path path)
    unfolding with_file
    with_file-some c f path e = ground arith

    named :
        (f : ConfigFile) (fs : List ConfigFile) (c : Config)
        → ((t : Text) → In t c.desired_tasks ↔ Names t fs)
        → (t : Text)
        → In t (merged_tasks os iterate c.desired_tasks f.desired_tasks) ↔ Names t (f ∷ fs)
    named f fs c h t =
        let (to, back) = merged_tasks_lem c.desired_tasks f.desired_tasks t in
        let (to', back') = h t in
        (
          λ i. elim (to i) [ inl j ↦ inl j | inr j ↦ inr (to' j) ],
          λ n. elim n [ inl j ↦ back (inl j) | inr j ↦ back (inr (back' j)) ],
        )

    with_base-Describes :
        (f g : ConfigFile) (fs : List ConfigFile) (r : Result)
        → Describes (g ∷ fs) r
        → Describes (f ∷ g ∷ fs) (with_base os iterate f r)
    with_base-Describes f g fs out_of_fuel d = d
    with_base-Describes f g fs failed d = inr d
    with_base-Describes f g fs (ok c) (w, p, n, sound) = elim (Option-cases f.path) [
      | inl e ↦ subst (Describes (f ∷ g ∷ fs)) (sym (with_file-none c f e)) (
        working_dir_of-none f (g ∷ fs) e ∙ w,
        refl,
        named f (g ∷ fs) c n,
        sound_extending f g fs (not_without_path f e) sound,
      )
      | inr (path, e) ↦
          subst (Describes (f ∷ g ∷ fs)) (sym (with_file-some c f path e))
            (elim (Option-cases (resolve_working_dir os f.config_path path)) [
              | inl r ↦ rw r (inl (path, e, r))
              | inr (dir, r) ↦ rw r (
                working_dir_of-some f (g ∷ fs) path e ∙ r,
                refl,
                named f (g ∷ fs) c n,
                sound_extending f g fs (not_resolved f path dir e r) sound,
              )
            ])
    ]

    with_base-Chain :
        (p : Text) (f : ConfigFile) (fs : List ConfigFile) (r : Result)
        → Chain os p fs
        → Describes fs r
        → Describes (f ∷ fs) (with_base os iterate f r)
    with_base-Chain p f [] r chain d = absurd (Chain-IsCons p [] chain)
    with_base-Chain p f (g ∷ fs) r chain d = with_base-Describes f g fs r d

    -- Where a file and those that it extends form a chain, `ReadConfig` ends. It fails exactly if the
    -- path of one of them does not resolve or the last has none. Else its path is that of the first file, its
    -- working directory the path of the first file that gives one, and it desires a task if one of the
    -- files does. Fuel for every file of the chain is enough, and Go may visit maps in any order.
    pub read_config_lem :
        (fuel : ℕ) (p : Text) (fs : List ConfigFile)
        → Chain os p fs
        → length fs ≤ fuel
        → Describes fs (read_config os iterate fuel p)
    unfolding read_config
    read_config_lem zero p fs chain h = absurd (too_long p fs chain h)
    read_config_lem (suc fuel) p _ (base {f = f} r e) h =
        rw (r, e, read_config) (to_config-Describes f)
    read_config_lem (suc fuel) p _ (extending {q = q} {f = f} {fs = fs} r e a chain) h =
        rw (r, e, a, read_config)
          (with_base-Chain q f fs (read_config os iterate fuel q) chain
            (read_config_lem fuel q fs chain (omega (arith, h))))

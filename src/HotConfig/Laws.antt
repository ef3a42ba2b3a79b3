-- ===== src/HotConfig/Laws.antt =====
-- What an update does to the configuration's files (gateway_core/ConfigManager.cpp, lines 104-138 and
-- 191-240).
use aiot_edge_gateway.Prelude.{
  ℕ, ◌≡◌, refl, ap, ◌∙◌, true, Option, none, some, List, [], ◌++◌, arith, length, take, drop,
  drop-append, if◌then◌else◌,
}
use aiot_edge_gateway.Prelude.Text.{Text, codes, find, find_char, eqb}
use aiot_edge_gateway.HotConfig.Scan.{object_length}
use aiot_edge_gateway.HotConfig.Tokens.{
  Tokens, object, AreTokens, HaveNoBraces, validate_json-object,
}
use aiot_edge_gateway.HotConfig.ObjectEnd.{object_length-object, take-object}
use aiot_edge_gateway.HotConfig.Manager.{
  ConfigFiles, Disk, params, WatchEntry, backup_current, atomic_write, find_params, notify_all,
  apply_params, handle_config_update,
}

-- The backup after an update that went as far as writing.
abbrev pub backup_after : ConfigFiles → Option Text
backup_after f = elim f.current [ none ↦ f.backup | some content ↦ some content ]

-- The backup that a disk leaves: none where there is no configuration or it does not open; otherwise
-- all of it, or what a failing write leaves, which nothing checks.
abbrev pub backup_left : Disk → ConfigFiles → Option Text
backup_left disk f = elim f.current [
  | none ↦ f.backup
  | some content ↦
      if disk.current_opens
      then elim disk.backup_written [ none ↦ some content | some partial ↦ some partial ]
      else f.backup
]

abbrev pub Replaced : Disk → Text → ConfigFiles → ConfigFiles → Type 0
Replaced disk params_json f f' = (f'.current ≡ some params_json) × (f'.backup ≡ backup_left disk f)

abbrev pub Works : Disk → Type 0
Works disk =
    (disk.current_opens ≡ true)
    × (disk.backup_written ≡ none)
    × (disk.backup_opens ≡ true)
    × (disk.temp_opens ≡ true)
    × (disk.temp_written ≡ none)
    × (disk.rename_works ≡ true)

find_params-found :
    (payload : Text) (params_start brace n : ℕ)
    → find payload (codes "\"params\"") 0 ≡ some params_start
    → find_char payload b'{' params_start ≡ some brace
    → object_length (drop brace payload) 0 ≡ some n
    → find_params payload ≡ params (take n (drop brace payload))
unfolding find_params
find_params-found payload params_start brace n f g h = rw (find_params, f, g, h) refl

find_params_lem :
    (payload pre : Text) (ts : Tokens) (rest : Text) (params_start : ℕ)
    → payload ≡ pre ++ object ts rest
    → find payload (codes "\"params\"") 0 ≡ some params_start
    → find_char payload b'{' params_start ≡ some (length pre)
    → AreTokens ts
    → HaveNoBraces ts
    → find_params payload ≡ params (object ts [])
find_params_lem payload pre ts rest params_start e f g h k =
    find_params-found payload params_start (length pre) (length (object ts [])) f g
      (ap (λ t. object_length t 0) dropped ∙ object_length-object ts rest h k)
    ∙ ap params (ap (take (length (object ts []))) dropped ∙ take-object ts rest)
  where
    dropped : drop (length pre) payload ≡ object ts rest
    dropped = ap (drop (length pre)) e ∙ drop-append (length pre) pre (object ts rest) refl

module _ {ℓ} {App : Type ℓ} (hash : Text → Text) (watchers : List (WatchEntry App)) where
  apply_params_on :
      (disk : Disk) (params_json : Text) (f : ConfigFiles) (app : App)
      → Works disk
      → (let (told, app') = notify_all watchers params_json app in
          apply_params hash watchers disk params_json f app ≡ (
            (if eqb told (codes "ACK")
                then codes "ACK: config updated, hash=" ++ hash params_json
                else told),
            record { current = some params_json; backup = backup_after f; temp = none },
            app',
          ))
  unfolding apply_params backup_current atomic_write
  apply_params_on disk params_json f app (d0, d1, d2, d3, d4, d5) = go f.current refl
    where
      go :
          (c : Option Text)
          → f.current ≡ c
          → (let (told, app') = notify_all watchers params_json app in
              apply_params hash watchers disk params_json f app ≡ (
                (if eqb told (codes "ACK")
                    then codes "ACK: config updated, hash=" ++ hash params_json
                    else told),
                record { current = some params_json; backup = backup_after f; temp = none },
                app',
              ))
      go none c = ground arith
      go (some old) c = ground arith

  -- On a disk that works, an update whose params are an object of matched brackets and whole strings,
  -- with no brace in a string, replaces the configuration by exactly that object, backs up the old
  -- one, and tells the modules, whose refusal or a checksum is the answer.
  pub update-persists :
      (disk : Disk) (payload pre : Text) (ts : Tokens) (rest : Text) (params_start : ℕ)
      (f : ConfigFiles) (app : App)
      → payload ≡ pre ++ object ts rest
      → find payload (codes "\"params\"") 0 ≡ some params_start
      → find_char payload b'{' params_start ≡ some (length pre)
      → AreTokens ts
      → HaveNoBraces ts
      → Works disk
      → (let (told, app') = notify_all watchers (object ts []) app in
          handle_config_update hash watchers disk payload f app ≡ (
            (if eqb told (codes "ACK")
                then codes "ACK: config updated, hash=" ++ hash (object ts [])
                else told),
            record { current = some (object ts []); backup = backup_after f; temp = none },
            app',
          ))
  unfolding handle_config_update
  update-persists disk payload pre ts rest params_start f app e g h t k d =
      rw
        (
          handle_config_update,
          find_params_lem payload pre ts rest params_start e g h t k,
          validate_json-object ts t,
        )
        (apply_params_on disk (object ts []) f app d)

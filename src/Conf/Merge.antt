-- ===== src/Conf/Merge.antt =====
-- What a merged configuration is.
use ngx_sqlite_log.Base.{◌≡◌, ◌≢◌, refl, ◌⊎◌, inl, inr, arith}
use ngx_sqlite_log.Conf.{Flag, unset, off, on, Settings, SrvConf, merge_srv_conf}

off_set : off ≢ unset
off_set h = absurd (ground arith)

on_set : on ≢ unset
on_set h = absurd (ground arith)

on_not_off : on ≢ off
on_not_off h = absurd (ground arith)

unset_not_off : unset ≢ off
unset_not_off h = absurd (ground arith)

abbrev block : Flag → Settings → SrvConf
block e s = record { enabled = e; settings = s }

-- After the merge the module is on or off; it is on exactly where the server says so under a block
-- that does not say off, and then with its own settings, or says nothing under a block that says
-- on, and then with the block's settings: what holds of the settings of each block that is on holds
-- of the merged server's.
pub merge_srv_conf_lem {ℓ} :
    (P : Settings → Type ℓ) (prev conf : SrvConf)
    → (prev.enabled ≡ on → P prev.settings)
    → (conf.enabled ≡ on → P conf.settings)
    → let merged = merge_srv_conf prev conf in
      (merged.enabled ≢ unset)
      × ((merged.enabled ≡ on
            × P merged.settings
            × (((conf.enabled ≡ on) × (prev.enabled ≢ off) × (merged.settings ≡ conf.settings))
                ⊎ ((conf.enabled ≡ unset)
                    × (prev.enabled ≡ on)
                    × (merged.settings ≡ prev.settings))))
          ⊎ ((merged.enabled ≡ off)
              × ((prev.enabled ≡ off)
                  ⊎ ((conf.enabled ≡ off) ⊎ ((conf.enabled ≡ unset) × (prev.enabled ≡ unset))))))
unfolding merge_srv_conf
merge_srv_conf_lem P prev conf h k = go prev.enabled conf.enabled prev.settings conf.settings h k
  where
    go :
        (a b : Flag) (s t : Settings)
        → (a ≡ on → P s)
        → (b ≡ on → P t)
        → let merged = merge_srv_conf (block a s) (block b t) in
          (merged.enabled ≢ unset)
          × ((merged.enabled ≡ on
                × P merged.settings
                × (((b ≡ on) × (a ≢ off) × (merged.settings ≡ t))
                    ⊎ ((b ≡ unset) × (a ≡ on) × (merged.settings ≡ s))))
              ⊎ ((merged.enabled ≡ off) × ((a ≡ off) ⊎ ((b ≡ off) ⊎ ((b ≡ unset) × (a ≡ unset))))))
    go off b s t x y = (off_set, inr (refl, inl refl))
    go unset off s t x y = (off_set, inr (refl, inr (inl refl)))
    go on off s t x y = (off_set, inr (refl, inr (inl refl)))
    go unset unset s t x y = (off_set, inr (refl, inr (inr (refl, refl))))
    go on unset s t x y = (on_set, inl (refl, x refl, inr (refl, refl, refl)))
    go unset on s t x y = (on_set, inl (refl, y refl, inl (refl, unset_not_off, refl)))
    go on on s t x y = (on_set, inl (refl, y refl, inl (refl, on_not_off, refl)))

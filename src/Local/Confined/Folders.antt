-- ===== src/Local/Confined/Folders.antt =====
-- Making, removing and moving items: src/local-provider/LocalProvider.cpp.
use storage_framework.Base.{false, ◌≡◌, is_empty}
use storage_framework.Base.Text.{Text, text_eq}
use storage_framework.Base.Int.{ℤ}
use storage_framework.Local.FileSystem.{FileSystem, IsAbsent, slash}
use storage_framework.Local.Lawful.{IsLawful}
use storage_framework.Local.Operations.{item_at, create_folder, delete_item, move}
use storage_framework.Local.Confined.{
  Confined, Confined-refl, throw_if_exists-IsAbsent, not_under, id_below, target_below,
  changes-Confined, look, next,
}

module _ (fs : FileSystem) (root : Text) (to_string : ℤ → Text) (format_utc : ℤ → Text)
    (mime_type : Text → Text) where
  pub item_at-Confined :
      (method p : Text) (s : fs.State)
      → Confined fs root s (item_at fs to_string format_utc mime_type root method p s).1
  item_at-Confined method p s = look fs root s _ _ (λ st e. Confined-refl fs root s)

  module _ (law : IsLawful fs) (not_empty : is_empty root ≡ false)
      (not_slash : text_eq root slash ≡ false) where
    pub create_folder-Confined :
        (dir name : Text) (s : fs.State)
        → Confined fs root s (create_folder fs to_string format_utc mime_type root dir name s).1
    unfolding create_folder
    create_folder-Confined dir name s = look fs root s _ _ (λ _ v. look fs root s _ _ (λ n m.
        look fs root s _ _ (λ _ x.
          let a : IsAbsent fs s (fs.append dir n) = throw_if_exists-IsAbsent fs root s _ _ _ x in
          next fs root s _ _ _
            (changes-Confined fs root law not_empty not_slash s _ _
              (target_below fs root law not_empty not_slash s _ dir name n v m a)
              (law.create_directory_lem s _))
            (λ _ _. item_at-Confined _ _ _))))

    pub delete_item-Confined :
        (id : Text) (s : fs.State)
        → Confined fs root s (delete_item fs to_string format_utc mime_type root id s).1
    unfolding delete_item
    delete_item-Confined id s = look fs root s _ _ (λ _ v. look fs root s _ _ (λ _ r.
        changes-Confined fs root law not_empty not_slash s _ _
          (id_below fs root law not_empty not_slash s _ _ id v r) (law.remove_all_lem s id)))

    pub move-Confined :
        (id dir name : Text) (s : fs.State)
        → Confined fs root s (move fs to_string format_utc mime_type root id dir name s).1
    unfolding move
    move-Confined id dir name s = look fs root s _ _ (λ _ v. look fs root s _ _ (λ _ w.
        look fs root s _ _ (λ n m. look fs root s _ _ (λ _ x. look fs root s _ _ (λ _ r.
          let a : IsAbsent fs s (fs.append dir n) = throw_if_exists-IsAbsent fs root s _ _ _ x in
          next fs root s _ _ _
            (λ q h.
              law.rename_lem s id (fs.append dir n) q
                (not_under fs root law not_empty not_slash _ q
                  (id_below fs root law not_empty not_slash s _ _ id v r) h)
                (not_under fs root law not_empty not_slash _ q
                  (target_below fs root law not_empty not_slash s _ dir name n w m a) h))
            (λ _ _. item_at-Confined _ _ _))))))

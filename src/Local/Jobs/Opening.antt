-- ===== src/Local/Jobs/Opening.antt =====
-- What the constructors of src/local-provider/LocalDownloadJob.cpp and the operations of
-- LocalProvider.cpp return, part by part.
use storage_framework.Local.Jobs.Chunks.{IsSending}
use storage_framework.Base.{subst, true, false, ◌≡◌, refl, [], length, arith}
use storage_framework.Base.Text.{Text}
use storage_framework.Base.Int.{ℤ, pos}
use storage_framework.Provider.Completion.{Completion}
use storage_framework.Local.Outcome.{Outcome, returns, throws, filesystem_error, unfinished, ◌>>=◌}
use storage_framework.Local.Steps.{after}
use storage_framework.Local.FileSystem.{FileSystem}
use storage_framework.Local.Jobs.{open_download, LocalDownload, Source, download}

module _ {A B : Type 0} where
  -- What a sequence returns that ends in `returns`.
  pub ends-returns :
      (o : Outcome A) (g : A → B) (b : B)
      → (o >>= λ a. returns (g a)) ≡ returns b
      → (a : A) × (o ≡ returns a) × (g a ≡ b)
  ends-returns (returns a) g b h = (a, refl, ground arith)
  ends-returns (throws e) g b h = absurd (cc)
  ends-returns (filesystem_error e) g b h = absurd (cc)
  ends-returns unfinished g b h = absurd (cc)

module _ {A B : Type 0} where
  pub bind-returns :
      (o : Outcome A) (f : A → Outcome B) (b : B)
      → (o >>= f) ≡ returns b
      → (a : A) × (o ≡ returns a) × (f a ≡ returns b)
  bind-returns (returns a) f b h = (a, refl, h)
  bind-returns (throws e) f b h = absurd (cc)
  bind-returns (filesystem_error e) f b h = absurd (cc)
  bind-returns unfinished f b h = absurd (cc)

  pub after-returns :
      {S : Type 0} (o : Outcome A) (s : S) (f : A → S → Outcome B × S) (b : B)
      → (after o s f).0 ≡ returns b
      → (a : A) × (o ≡ returns a) × ((f a s).0 ≡ returns b)
  unfolding after
  after-returns (returns a) s f b h = (a, refl, h)
  after-returns (throws e) s f b h = absurd (cc)
  after-returns (filesystem_error e) s f b h = absurd (cc)
  after-returns unfinished s f b h = absurd (cc)

module _ (fs : FileSystem) (to_string : ℤ → Text) (root : Text) where
  -- Nothing of a download that has just been made is sent yet.
  pub download-IsSending :
      (source : Source) (base : Completion) (id etag : Text) (s : fs.State) (d : LocalDownload)
      → base.completed ≡ false
      → base.locked ≡ false
      → download fs to_string root source base id etag s ≡ returns d
      → IsSending source.content d
  unfolding download
  download-IsSending source base id etag s d c l h =
      let (_, _, made) =
        ends-returns (open_download fs to_string root source id etag s) (λ _. made_of) d h in
      subst (IsSending source.content) made (record {
        not_completed = c;
        not_locked = l;
        whole = refl;
        rest = length source.content;
        counted = refl;
        unread_counted = omega arith;
        within = omega arith;
      })
    where
      made_of : LocalDownload
      made_of = record {
        base = base;
        item_id = id;
        file_size = length source.content;
        unread = source.content;
        sent = [];
        bytes_to_write = pos (length source.content);
        file_open = true;
        socket_open = true;
      }

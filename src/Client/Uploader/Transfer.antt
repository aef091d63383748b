-- ===== src/Client/Uploader/Transfer.antt =====
-- Where the bytes go that a client writes.
use storage_framework.Base.{ℕ, true, false, ◌≡◌, refl, ◌∙◌, ap, List, [], ◌∷◌, ◌++◌, length, arith}
use mathlib.Core.List.{append_assoc, append-nil}
use storage_framework.Base.Text.{Text}
use storage_framework.Base.Int.{ℤ, pos, ltb_ℤ}
use storage_framework.Client.Socket.{Socket}
use storage_framework.Client.Uploader.{Uploader, loading, ready, start, process_reply, write_data}

unfoldable pub concat : List (List ℕ) → List ℕ
concat [] = []
concat (d ∷ ds) = d ++ concat ds

-- The socket takes each of these writes whole.
abbrev pub TakesAll : (qt : Socket) → qt.State → List (List ℕ) → Type 0
TakesAll qt s [] = Unit
TakesAll qt s (d ∷ ds) = ((qt.write d s).0 ≡ pos (length d)) × TakesAll qt (qt.write d s).1 ds

module _ (qt : Socket) {Md : Type 0} where
  unfoldable pub write_all : Uploader qt.State Md → List (List ℕ) → Uploader qt.State Md
  write_all u [] = u
  write_all u (d ∷ ds) = write_all (write_data qt u d).1 ds

  -- While the opening call is pending every write is taken whole, into the buffer.
  write_all-loading :
      (u : Uploader qt.State Md) (ds : List (List ℕ))
      → u.status ≡ loading
      → write_all u ds ≡ record u { buffer = u.buffer ++ concat ds }
  unfolding write_all write_data concat
  write_all-loading u [] h = rw (append-nil u.buffer)
  write_all-loading u (d ∷ ds) h = rw (
    loaded,
    write_all-loading (record u { buffer = u.buffer ++ d }) ds h,
    append_assoc u.buffer d (concat ds),
  )
    where
      loaded : (write_data qt u d).1 ≡ record u { buffer = u.buffer ++ d }
      loaded = ground arith

  process_reply-sent :
      (u : Uploader qt.State Md) (id : Text) (fd : ℤ)
      → u.status ≡ loading
      → ltb_ℤ fd (pos 0) ≡ false
      → (qt.write u.buffer (qt.set_descriptor fd u.socket)).0 ≡ pos (length u.buffer)
      → ((process_reply qt u true id fd).status ≡ ready)
        × (qt.sent (process_reply qt u true id fd).socket ≡ u.buffer)
        × ((process_reply qt u true id fd).buffer ≡ [])
  unfolding process_reply
  process_reply-sent u id fd l p w = ground (
    arith,
    qt.sent-write u.buffer (qt.set_descriptor fd u.socket),
    qt.sent-set_descriptor fd u.socket,
  )

  write_all-ready :
      (u : Uploader qt.State Md) (ds : List (List ℕ))
      → u.status ≡ ready
      → u.buffer ≡ []
      → TakesAll qt u.socket ds
      → qt.sent (write_all u ds).socket ≡ qt.sent u.socket ++ concat ds
  unfolding write_all write_data concat
  write_all-ready u [] r b t = rw (append-nil (qt.sent u.socket))
  write_all-ready u (d ∷ ds) r b t =
      ap (λ w. qt.sent (write_all w ds).socket) written
      ∙ write_all-ready (record u { socket = (qt.write d u.socket).1 }) ds r b t.1
      ∙ rw (qt.sent-write d u.socket t.0) (append_assoc (qt.sent u.socket) d (concat ds))
    where
      written : (write_data qt u d).1 ≡ record u { socket = (qt.write d u.socket).1 }
      written = ground arith

module _ (qt : Socket) (Md : Type 0) where
  is_loading : (method : Text) (size : ℕ) → (start qt {Md = Md} method size).status ≡ loading
  unfolding start
  is_loading method size = refl

  write_all-start :
      (method : Text) (size : ℕ) (early : List (List ℕ))
      → write_all qt (start qt {Md = Md} method size) early
        ≡ record (start qt {Md = Md} method size) { buffer = concat early }
  write_all-start method size early =
      write_all-loading qt (start qt {Md = Md} method size) early (is_loading method size)
      ∙ (unfold start in refl)

  -- What a client writes reaches the socket whole and in order, also what it wrote while the opening
  -- call was pending, if that call is answered by a valid descriptor while the runtime is valid, and
  -- the socket takes the bytes that it is handed.
  pub write_all-sent :
      (method : Text) (size : ℕ) (early late : List (List ℕ)) (id : Text) (fd : ℤ)
      → ltb_ℤ fd (pos 0) ≡ false
      → TakesAll qt (qt.set_descriptor fd qt.unconnected) (concat early ∷ [])
      → let opened =
          process_reply qt (write_all qt (start qt {Md = Md} method size) early) true id fd in
        TakesAll qt opened.socket late
        → qt.sent (write_all qt opened late).socket ≡ concat early ++ concat late
  write_all-sent method size early late id fd p first t =
      let u : Uploader qt.State Md = record (start qt {Md = Md} method size) {
        buffer = concat early;
      } in
      let opened =
        process_reply-sent qt u id fd (is_loading method size) p (unfold start in first.0) in
      write_all-ready qt _ late (rw (write_all-start method size early) opened.0)
        (rw (write_all-start method size early) opened.2) t
      ∙ rw (write_all-start method size early, opened.1)

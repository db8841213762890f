-- ===== src/DeltaChat/Transport/Files.antt =====
-- dc_transport.py: the temporary file that a download makes, and the removal of files.
use delta_gateway_chat_woot.Base.{
  ℕ, String, str_eq, ◌+◌, pos, leb, Bool, false, List, [], ◌∷◌, Option, All, any, ◌≡◌, refl, sym,
  arith, if◌then◌else◌,
}
use delta_gateway_chat_woot.Errors.{fatal_error, Result, ok, err}
use delta_gateway_chat_woot.Exec.{Exec, continue, resume, ◌>>=◌, ◌>>◌, pure, lift, raise, attempt}
use delta_gateway_chat_woot.Exec.Kept.{Preserves, bind-Preserves, if-Preserves}
use delta_gateway_chat_woot.Values.{Value, int}
use delta_gateway_chat_woot.World.{World}
use delta_gateway_chat_woot.Telegram.Prepare.{is_over_size_limit}
use delta_gateway_chat_woot.DeltaChat.Extract.{ViewType}
use delta_gateway_chat_woot.DeltaChat.Transport.{
  Sending, Urls, Outside, Settings, Prepared, without, outside, unlink, save_chunks, fetch, checked,
  new_temp_file, discard, download_attachment, unlink_all,
}

abbrev pub has : String → List String → Bool
has k names = any (λ j. str_eq j k) names

has-without : (p : String) (l : List String) → has p (without p l) ≡ false
unfolding without
has-without p [] = refl
has-without p (q ∷ l) = ground (arith, has-without p l)

has-without_other : (p k : String) (l : List String) → has k l ≡ false → has k (without p l) ≡ false
unfolding without
has-without_other p k [] h = refl
has-without_other p k (q ∷ l) h = ground (arith, has-without_other p k l)

module _ {Q : Type 0} (urls : Urls) (out : Outside (World Q)) (settings : Settings) where
  unlink_all-other :
      (k : String) (ps : List Prepared) (s : Sending Q)
      → has k s.temp_files ≡ false
      → has k (unlink_all urls out settings ps s).temp_files ≡ false
  unfolding unlink_all unlink
  unlink_all-other k [] s h = h
  unlink_all-other k (p ∷ ps) s h =
      unlink_all-other k ps (unlink urls out settings p.temp_path s)
        (has-without_other p.temp_path k s.temp_files h)

  pub unlink_all-removes :
      (ps : List Prepared) (s : Sending Q)
      → All (λ p. has p.temp_path (unlink_all urls out settings ps s).temp_files ≡ false) ps
  unfolding unlink_all unlink
  unlink_all-removes [] s = tt
  unlink_all-removes (p ∷ ps) s = (
    unlink_all-other p.temp_path ps (unlink urls out settings p.temp_path s)
        (has-without p.temp_path s.temp_files),
    unlink_all-removes ps (unlink urls out settings p.temp_path s),
  )

  abbrev Has : List String → Sending Q → Type 0
  Has l s = s.temp_files ≡ l

  outside-Has :
      {A : Type 0} (l : List String) (m : Exec (World Q) A)
      → Preserves (Has l) (outside urls out settings m)
  unfolding outside
  outside-Has l m s h = h

  -- What is fetched makes and removes no temporary file.
  save_chunks-Has :
      (l : List String) (path : String) (n : ℕ) (chunks : List ℕ)
      → Preserves (Has l) (save_chunks urls out settings path n chunks)
  unfolding save_chunks
  save_chunks-Has l path n [] = λ s h. h
  save_chunks-Has l path n (c ∷ chunks) =
      let rest = save_chunks urls out settings path (n + c) chunks in
      let written = outside urls out settings (out.write path c) in
      bind-Preserves (Has l)
        (lift (is_over_size_limit (int (pos (n + c))) settings.chatwoot_upload_max_mb))
        (λ over. if over then raise fatal_error else (written >> rest)) (λ s h. h)
        (λ over.
          if-Preserves (Has l) over (raise fatal_error) (written >> rest) (λ s h. h)
            (bind-Preserves (Has l) written (λ _. rest) (outside-Has l (out.write path c))
              (λ _. save_chunks-Has l path (n + c) chunks)))

  fetch-Has :
      (l : List String) (url path : String) → Preserves (Has l) (fetch urls out settings url path)
  unfolding fetch
  fetch-Has l url path =
      bind-Preserves (Has l) (outside urls out settings (out.get url))
        (λ response.
          if leb 400 response.status
          then raise fatal_error
          else save_chunks urls out settings path 0 response.chunks)
        (outside-Has l (out.get url))
        (λ response.
          if-Preserves (Has l) (leb 400 response.status) (raise fatal_error)
            (save_chunks urls out settings path 0 response.chunks) (λ s h. h)
            (save_chunks-Has l path 0 response.chunks))

  abbrev saved : String → String → Option ViewType → Result (Unit {0}) → Exec (Sending Q) Prepared
  saved path filename viewtype r s =
      continue (resume r (discard urls out settings path) s).0
        (λ _. pure (record { temp_path = path; filename = filename; viewtype = viewtype }))
        (resume r (discard urls out settings path) s).1

  saved-makes :
      (path filename : String) (viewtype : Option ViewType) (r : Result (Unit {0})) (s : Sending Q)
      (p : Prepared) (before : List String)
      → s.temp_files ≡ path ∷ before
      → (saved path filename viewtype r s).0 ≡ ok p
      → (saved path filename viewtype r s).1.temp_files ≡ p.temp_path ∷ before
  unfolding discard
  saved-makes path filename viewtype (ok u) s p before e h =
      let same : path ≡ p.temp_path = cc h in rw (sym same) e
  saved-makes path filename viewtype (err x) s p before e h = cc h

  abbrev fetched : String → String → Option ViewType → String → Exec (Sending Q) Prepared
  fetched url filename viewtype path =
      attempt (fetch urls out settings url path) (discard urls out settings path)
      >> pure (record { temp_path = path; filename = filename; viewtype = viewtype })

  -- The name of a new file, when there is one, is the newest of the temporary files.
  abbrev IsNewest : List String → Result String → Sending Q → Type 0
  IsNewest before (ok path) s = s.temp_files ≡ path ∷ before
  IsNewest before (err e) s = Unit {0}

  fetched-makes :
      (url filename : String) (viewtype : Option ViewType) (before : List String)
      (name : Result String) (s : Sending Q) (p : Prepared)
      → IsNewest before name s
      → (continue name (fetched url filename viewtype) s).0 ≡ ok p
      → (continue name (fetched url filename viewtype) s).1.temp_files ≡ p.temp_path ∷ before
  fetched-makes url filename viewtype before (ok path) s p newest h =
      let r = fetch urls out settings url path s in
      saved-makes path filename viewtype r.0 r.1 p before
        (fetch-Has (path ∷ before) url path s newest) h
  fetched-makes url filename viewtype before (err e) s p newest h = cc h

  named-IsNewest :
      (name : Result String) (s : Sending Q)
      → (let n =
            continue name (λ path t. (ok path, record t { temp_files = path ∷ t.temp_files })) s in
          IsNewest s.temp_files n.0 n.1)
  named-IsNewest (ok path) s = refl
  named-IsNewest (err e) s = tt

  read_makes :
      (r : Result (String × String × Option ViewType)) (s : Sending Q) (p : Prepared)
      → (continue r
          (λ read.
            new_temp_file urls out settings (urls.suffix read.1) >>= fetched read.0 read.1 read.2)
          s).0
        ≡ ok p
      → (continue r
          (λ read.
            new_temp_file urls out settings (urls.suffix read.1) >>= fetched read.0 read.1 read.2)
          s).1.temp_files
        ≡ p.temp_path ∷ s.temp_files
  unfolding new_temp_file outside
  read_makes (ok read) s p h =
      let n = outside urls out settings (out.temp_name (urls.suffix read.1)) s in
      let named = new_temp_file urls out settings (urls.suffix read.1) s in
      fetched-makes read.0 read.1 read.2 s.temp_files named.0 named.1 p (named-IsNewest n.0 n.1) h
  read_makes (err e) s p h = cc h

  -- A download that returns has made the file that it returns, and no other.
  pub download_attachment-makes :
      (a : Value) (s : Sending Q) (p : Prepared)
      → (download_attachment urls out settings a s).0 ≡ ok p
      → (download_attachment urls out settings a s).1.temp_files ≡ p.temp_path ∷ s.temp_files
  unfolding download_attachment new_temp_file
  download_attachment-makes a s p h = read_makes (checked urls out settings a) s p h

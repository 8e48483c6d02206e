-- ===== src/Registry/Registering.antt =====
-- store.rs: what `register` leaves in the table, and what it answers for a path that it knows.
use mehoy_malloy_ai_runtime.Common.{
  ℕ, ◌≡◌, refl, sym, ap, ◌∙◌, Bool, none, List, [], ◌∷◌, Result, ok, err, ok-injective,
}
use mehoy_malloy_ai_runtime.Common.Text.{Text}
use mehoy_malloy_ai_runtime.Gguf.Header.{GgufHeader, Metadata, parse}
use mehoy_malloy_ai_runtime.Registry.{encode_hex, unverified, ModelArtifact, render_value}
use mehoy_malloy_ai_runtime.Registry.Store.{Registration, registered, Row, artifact_row}
use mehoy_malloy_ai_runtime.Registry.Operations.{
  Database, Answers, stored, read_from, as_artifact, put_entries, insert, new_artifact,
  register_new,
}
use mehoy_malloy_ai_runtime.Registry.Table.{has_id, has_path, find_row, IsStore, bind-ok}

pub stored-ok {ℓ} : {A : Type ℓ} (m : Result A Text) (a : A) → stored m ≡ ok a → m ≡ ok a
stored-ok (ok b) a h = cc
stored-ok (err e) a h = cc

pub read_from-ok {ℓ} : {A : Type ℓ} (m : Result A Text) (a : A) → read_from m ≡ ok a → m ≡ ok a
read_from-ok (ok b) a h = cc
read_from-ok (err e) a h = cc

module _ {Db : Type 0} (database : Database Db) (rows : Db → List Row)
    (store : IsStore database rows) (f32_text f64_text : ℕ → Text) (is_utf8 : Text → Bool)
    (to_string_lossy : Text → Text) where
  put_entries-rows :
      (id : Text) (entries : Metadata) (db db' : Db)
      → put_entries database f32_text f64_text is_utf8 to_string_lossy id entries db ≡ ok db'
      → rows db' ≡ rows db
  unfolding put_entries
  put_entries-rows id [] db db' h = ap rows (sym (ok-injective h))
  put_entries-rows id ((key, value) ∷ entries) db db' h =
      let (db1, p, q) =
        bind-ok (database.put_entry id key (render_value f32_text f64_text value) db) _ db' h in
      put_entries-rows id entries db1 db' q
      ∙ store.entry_put id key (render_value f32_text f64_text value) db db1 p

  -- The row of the artifact stands in the table, whose id and path were free.
  abbrev pub IsInserted : ModelArtifact → Db → Db → Type 0
  IsInserted a db db' =
      let row = artifact_row (to_string_lossy a.path) a in
      (rows db' ≡ row ∷ rows db)
      × (find_row (has_id row.id) (rows db) ≡ none)
      × (find_row (has_path row.canonical_path) (rows db) ≡ none)

  insert-rows :
      (a : ModelArtifact) (header : GgufHeader) (db db' : Db)
      → insert database f32_text f64_text is_utf8 to_string_lossy a header db ≡ ok db'
      → IsInserted a db db'
  unfolding insert
  insert-rows a header db db' h =
      let row = artifact_row (to_string_lossy a.path) a in
      let h' = stored-ok _ db' h in
      let (db1, p1, h1) = bind-ok (database.begins db) _ db' h' in
      let (db2, p2, h2) = bind-ok (database.insert_row row db1) _ db' h1 in
      let (db3, p3, h3) =
        bind-ok
          (put_entries database f32_text f64_text is_utf8 to_string_lossy a.id header.metadata db2)
          _ db' h2 in
      let same = store.begun db db1 p1 in
      let (e, i, c) = store.inserted row db1 db2 p2 in
      (
        store.commit_kept db3 db' h3
            ∙ (put_entries-rows a.id header.metadata db2 db3 p3 ∙ (e ∙ ap (row ∷◌) same)),
        ap (find_row (has_id row.id)) (sym same) ∙ i,
        ap (find_row (has_path row.canonical_path)) (sym same) ∙ c,
      )

  -- What is known of an artifact that was registered.
  pub record IsRegistered (s : Answers) (canonical : Text) (a : ModelArtifact) (db db' : Db)
      : Type 0 where
    pub in_table : IsInserted a db db'
    pub at_path : a.path ≡ canonical
    pub as_observed : s.observed ≡ ok a.fingerprint
    pub same_size : a.size_bytes ≡ a.fingerprint.size_bytes
    pub not_verified : a.integrity ≡ unverified
    pub at_time : a.registered_at ≡ s.now

  pub register_new-IsRegistered :
      (s : Answers) (canonical : Text) (db db' : Db) (r : Registration)
      → register_new database f32_text f64_text is_utf8 to_string_lossy s canonical db ≡ ok (r, db')
      → (a : ModelArtifact) × (r ≡ registered a) × IsRegistered s canonical a db db'
  unfolding register_new new_artifact
  register_new-IsRegistered s canonical db db' r h =
      let ((bytes, end), p1, h1) = bind-ok (read_from s.opened) _ (r, db') h in
      let (header, p2, h2) =
        bind-ok (as_artifact canonical (parse is_utf8 bytes end)) _ (r, db') h1 in
      let (fingerprint, p3, h3) = bind-ok (read_from s.observed) _ (r, db') h2 in
      let (random, p4, h4) = bind-ok (read_from s.random) _ (r, db') h3 in
      let a = new_artifact canonical fingerprint (encode_hex random) s.now header in
      let (db1, p5, h5) =
        bind-ok (insert database f32_text f64_text is_utf8 to_string_lossy a header db) _ (r, db')
          h4 in
      let e : (registered a, db1) ≡ (r, db') = ok-injective h5 in
      let same : db1 ≡ db' = ap (λ (x : Registration × Db). x.1) e in
      (
        a,
        sym (ap (λ (x : Registration × Db). x.0) e),
        record {
          in_table = insert-rows a header db db' (p5 ∙ ap ok same);
          at_path = refl;
          as_observed = read_from-ok s.observed fingerprint p3;
          same_size = refl;
          not_verified = refl;
          at_time = refl;
        },
      )

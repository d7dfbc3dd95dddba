-- ===== src/Exporter/Files/Written.antt =====
-- What is in the files after a call, on a file system that obliges.
use zookeeper_operator.Prelude.{
  String, ◌&◌, str_eq, eq_refl, Option, some, [], ◌∷◌, ◌++◌, ◌≡◌, refl, sym, ◌∙◌, ap, arith,
  if◌then◌else◌,
}
use zookeeper_operator.Prelude.Dict.{Dict, get, or_else}
use zookeeper_operator.Std.Filepath.{join}
use zookeeper_operator.Controller.Interfaces.{not_found, failure, panic, Result, ok, err, go_on}
use zookeeper_operator.Exporter.Files.{
  FileSystem, Manifest, make_missing, create_dir_if_not_exist, create_yaml_output_dir,
  create_output_sub_dir, wrap_write, write_marshalled, fill_created, generate_output_yaml_file,
}

-- No call fails. `contents` is what a reader finds at a path. A directory is no file; a created file is
-- empty; what is written to an empty file is there after the flush, and stays when it is closed.
pub record Obliges {W : Type 0} (fs : FileSystem W) (contents : String → W → Option String)
    (text : Manifest → String) : Type 0 where
  pub marshals : (m : Manifest) → fs.marshal m ≡ ok (text m)
  pub makes : (d : String) (w : W) → (fs.mkdir_all d w).0 ≡ ok tt
  pub contents-mkdir_all : (q d : String) (w : W) → contents q (fs.mkdir_all d w).1 ≡ contents q w
  pub creates : (p : String) (w : W) → (fs.create p w).0 ≡ ok tt
  pub contents-create :
      (q p : String) (w : W)
      → contents q (fs.create p w).1 ≡ (if str_eq p q then some "" else contents q w)
  pub writes : (p t : String) (w : W) → (fs.write p t w).0.1 ≡ ok tt
  pub contents-flush :
      (q p t : String) (w : W)
      → contents p w ≡ some ""
      → contents q (fs.flush p (fs.write p t w).1) ≡ (if str_eq p q then some t else contents q w)
  pub contents-close : (q p : String) (w : W) → contents q (fs.close p w) ≡ contents q w

or_else_assoc {ℓ} :
    {A : Type ℓ} (a b c : Option A) → or_else (or_else a b) c ≡ or_else a (or_else b c)
or_else_assoc a b c = ground arith

get-append : (k : String) (m n : Dict) → get k (m ++ n) ≡ or_else (get k m) (get k n)
unfolding get
get-append k [] n = refl
get-append k ((j, v) ∷ m) n = ground (arith, get-append k m n)

module _ {W : Type 0} (contents : String → W → Option String) where
  -- The call succeeds, and then the files of `m` are there and the others are as they were in `w`.
  pub record Wrote (m : Dict) (w : W) (r : Result (Unit {0}) × W) : Type 0 where
    pub succeeds : r.0 ≡ ok tt
    pub leaves : (q : String) → contents q r.1 ≡ or_else (get q m) (contents q w)

  pub done-Wrote : (w : W) → Wrote [] w (ok tt, w)
  unfolding get
  done-Wrote w = record { succeeds = refl; leaves = λ q. refl }

  pub go_on-Wrote :
      (m n : Dict) (w : W) (r : Result (Unit {0}) × W) (rest : W → Result (Unit {0}) × W)
      → Wrote m w r
      → ((v : W) → Wrote n v (rest v))
      → Wrote (n ++ m) w (go_on r rest)
  go_on-Wrote m n w (ok u, v) rest h k = record {
    succeeds = (k v).succeeds;
    leaves = λ q.
        (k v).leaves q
        ∙ ap (or_else (get q n)) (h.leaves q)
        ∙ sym (or_else_assoc (get q n) (get q m) (contents q w))
        ∙ ap (λ o. or_else o (contents q w)) (sym (get-append q n m));
  }
  go_on-Wrote m n w (err e, v) rest h k = absurd (cc)

module _ {W : Type 0} (fs : FileSystem W) (contents : String → W → Option String)
    (text : Manifest → String) (o : Obliges fs contents text) where
  make_missing-Wrote :
      (dir : String) (answer : Result (Unit {0})) (w : W)
      → Wrote contents [] w (make_missing fs dir answer w)
  unfolding make_missing get
  make_missing-Wrote dir (err (not_found t)) w = record {
    succeeds = o.makes dir w;
    leaves = λ q. o.contents-mkdir_all q dir w;
  }
  make_missing-Wrote dir (err (failure t)) w = done-Wrote contents w
  make_missing-Wrote dir (err panic) w = done-Wrote contents w
  make_missing-Wrote dir (ok u) w = done-Wrote contents w

  create_dir-Wrote : (dir : String) (w : W) → Wrote contents [] w (create_dir_if_not_exist fs dir w)
  unfolding create_dir_if_not_exist
  create_dir-Wrote dir w = make_missing-Wrote dir (fs.stat dir w) w

  -- the file is created and is empty
  fill_created-Wrote :
      (p : String) (m : Manifest) (w : W) (r : Result (Unit {0}) × W)
      → r.0 ≡ ok tt
      → ((q : String) → contents q r.1 ≡ (if str_eq p q then some "" else contents q w))
      → Wrote contents ((p, text m) ∷ []) w (fill_created fs p m r)
  unfolding fill_created write_marshalled wrap_write get
  fill_created-Wrote p m w (ok u, v) h e = record {
    succeeds = rw (o.marshals m, o.writes p (text m) v);
    leaves = λ q. rw (o.marshals m) (
        o.contents-close q p (fs.flush p (fs.write p (text m) v).1)
        ∙ o.contents-flush q p (text m) v (rw (e p, eq_refl p))
        ∙ ground (arith, e q));
  }
  fill_created-Wrote p m w (err x, v) h e = absurd (cc)

  pub generate_output-Wrote :
      (subdir kind : String) (m : Manifest) (w : W)
      → Wrote contents
          ((join subdir (kind & "." & "yaml"), text m) ∷ [])
          w
          (generate_output_yaml_file fs subdir kind m w)
  unfolding generate_output_yaml_file
  generate_output-Wrote subdir kind m w =
      let p = join subdir (kind & "." & "yaml") in
      fill_created-Wrote p m w (fs.create p w) (o.creates p w) (λ q. o.contents-create q p w)

  pub create_yaml_output_dir-Wrote :
      (dir : String) (w : W) → Wrote contents [] w (create_yaml_output_dir fs dir w)
  unfolding create_yaml_output_dir
  create_yaml_output_dir-Wrote = create_dir-Wrote

  pub create_output_sub_dir-Wrote :
      (cluster_name comp : String) (w : W)
      → let ((fpath, answer), w') = create_output_sub_dir fs cluster_name comp w in
        Wrote contents [] w (answer, w')
  unfolding create_output_sub_dir
  create_output_sub_dir-Wrote cluster_name comp w = create_dir-Wrote (join cluster_name comp) w

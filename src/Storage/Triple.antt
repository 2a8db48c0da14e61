-- ===== src/Storage/Triple.antt =====
-- Triples over the disk: what holds of it when an action returns, and when it raises or is cut off,
-- under every script of faults of an allowed kind.
use pico_dualcore.Prelude.{
  ◌≡◌, refl, true, false, Option, none, some, List, [], ◌∷◌, All, is_some, arith, ◌⊎◌, inl, inr,
}
use pico_dualcore.Storage.{
  FilePath, config_path, tmp_path, old_path, cleanup_path, Trouble, io_error, memory_error,
  power_cut, Fault, fine, before, after, torn, Disk, World, Exn, config_error, trouble, Result, ok,
  err, Io, file, put_file, pure, raise, befall, rest, act, exists, remove, rename, sync, read,
  write, ◌>>=◌, rescue, continue, handle, renamed, removed, contents,
}

module _ {T A : Type 0} where
  abbrev pub Post : (A → Disk T → Type 0) → (Exn → Disk T → Type 0) → Result A → Disk T → Type 0
  Post Q R (ok a) d = Q a d
  Post Q R (err e) d = R e d

module _ {T : Type 0} where
  -- The trouble in the fault, if any, is of an allowed kind.
  abbrev pub Within : (Trouble → Type 0) → Fault T → Type 0
  Within K fine = Unit
  Within K (before e) = K e
  Within K (after e) = K e
  Within K (torn t e) = K e

  pub record Triple (K : Trouble → Type 0) {A : Type 0} (P : Disk T → Type 0) (m : Io T A)
      (Q : A → Disk T → Type 0) (R : Exn → Disk T → Type 0) : Type 0 where
    pub at :
        (w : World T)
        → All (Within K) w.script
        → P w.disk
        → Post Q R (m w).0 (m w).1.disk × All (Within K) (m w).1.script

module _ {T : Type 0} where
  All-rest :
      (K : Trouble → Type 0) (s : List (Fault T)) → All (Within K) s → All (Within K) (rest s)
  unfolding rest
  All-rest K [] h = tt
  All-rest K (_ ∷ xs) h = h.1

module _ {T : Type 0} {K : Trouble → Type 0} where
  module _ {A : Type 0} (Q : A → Disk T → Type 0) (R : Exn → Disk T → Type 0) where
    befall-Post :
        (s : List (Fault T)) (leave : T → Disk T) (d : Disk T) (r : Result A) (d' : Disk T)
        → All (Within K) s
        → Post Q R r d'
        → ((e : Trouble) → K e → R (trouble e) d)
        → ((e : Trouble) → K e → R (trouble e) d')
        → ((t : T) (e : Trouble) → K e → R (trouble e) (leave t))
        → let (r', d'') = befall s leave d r d' in Post Q R r' d''
    unfolding befall
    befall-Post [] leave d r d' h p b a l = p
    befall-Post (fine ∷ _) leave d r d' h p b a l = p
    befall-Post (before e ∷ _) leave d r d' h p b a l = b e h.0
    befall-Post (after e ∷ _) leave d r d' h p b a l = a e h.0
    befall-Post (torn t e ∷ _) leave d r d' h p b a l = l t e h.0

  module _ {A : Type 0} {P : Disk T → Type 0} {Q : A → Disk T → Type 0}
      {R : Exn → Disk T → Type 0} where
    pub Triple-act :
        (leave : T → Disk T → Disk T) (f : Disk T → Result A × Disk T)
        → ((d : Disk T) → P d → Post Q R (f d).0 (f d).1)
        → ((d : Disk T) (e : Trouble) → K e → P d → R (trouble e) d)
        → ((d : Disk T) (e : Trouble) → K e → P d → R (trouble e) (f d).1)
        → ((d : Disk T) (t : T) (e : Trouble) → K e → P d → R (trouble e) (leave t d))
        → Triple K P (act leave f) Q R
    unfolding act
    Triple-act leave f post b a l = record {
      at = λ w s p. (
        befall-Post Q R w.script (λ t. leave t w.disk) w.disk (f w.disk).0 (f w.disk).1 s
            (post w.disk p) (λ e k. b w.disk e k p) (λ e k. a w.disk e k p)
            (λ t e k. l w.disk t e k p),
        All-rest K w.script s,
      );
    }

    pub Triple-pure : (a : A) → ((d : Disk T) → P d → Q a d) → Triple K P (pure a) Q R
    unfolding pure
    Triple-pure a h = record { at = λ w s p. (h w.disk p, s) }

    pub Triple-raise : (e : Exn) → ((d : Disk T) → P d → R e d) → Triple K P (raise e) Q R
    unfolding raise
    Triple-raise e h = record { at = λ w s p. (h w.disk p, s) }

    -- A fact that the precondition gives of no particular disk.
    pub Triple-from :
        {E : Type 0} (m : Io T A)
        → ((d : Disk T) → P d → E)
        → (E → Triple K P m Q R)
        → Triple K P m Q R
    Triple-from m he hm = record { at = λ w s p. (hm (he w.disk p)).at w s p }

  module _ {A B : Type 0} {P : Disk T → Type 0} {Q : A → Disk T → Type 0} {Q' : B → Disk T → Type 0}
      {R : Exn → Disk T → Type 0} where
    pub Triple-bind :
        (m : Io T A) (f : A → Io T B)
        → Triple K P m Q R
        → ((a : A) → Triple K (Q a) (f a) Q' R)
        → Triple K P (m >>= f) Q' R
    unfolding ◌>>=◌
    Triple-bind m f hm hf = record {
      at = λ w s p. let (q, s') = hm.at w s p in on_result (m w).0 (m w).1 s' q;
    }
      where
        on_result :
            (r : Result A) (w : World T)
            → All (Within K) w.script
            → Post Q R r w.disk
            → Post Q' R (continue r f w).0 (continue r f w).1.disk
              × All (Within K) (continue r f w).1.script
        on_result (ok a) w s p = (hf a).at w s p
        on_result (err e) w s p = (p, s)

  module _ {A : Type 0} {P : Disk T → Type 0} {Q : A → Disk T → Type 0}
      {R R' : Exn → Disk T → Type 0} where
    pub Triple-rescue :
        (m : Io T A) (h : Exn → Io T A)
        → Triple K P m Q R'
        → ((e : Exn) → Triple K (R' e) (h e) Q R)
        → Triple K P (rescue m h) Q R
    unfolding rescue
    Triple-rescue m h hm hh = record {
      at = λ w s p. let (q, s') = hm.at w s p in on_result (m w).0 (m w).1 s' q;
    }
      where
        on_result :
            (r : Result A) (w : World T)
            → All (Within K) w.script
            → Post Q R' r w.disk
            → Post Q R (handle r h w).0 (handle r h w).1.disk
              × All (Within K) (handle r h w).1.script
        on_result (ok a) w s p = (p, s)
        on_result (err e) w s p = (hh e).at w s p

  module _ {A : Type 0} {P P' : Disk T → Type 0} {Q Q' : A → Disk T → Type 0}
      {R R' : Exn → Disk T → Type 0} where
    pub Triple-weaken :
        (m : Io T A)
        → ((d : Disk T) → P d → P' d)
        → ((a : A) (d : Disk T) → Q' a d → Q a d)
        → ((e : Exn) (d : Disk T) → R' e d → R e d)
        → Triple K P' m Q' R'
        → Triple K P m Q R
    Triple-weaken m hp hq hr t = record {
      at = λ w s p. let (q, s') = t.at w s (hp w.disk p) in (on_result (m w).0 (m w).1.disk q, s');
    }
      where
        on_result : (r : Result A) (d : Disk T) → Post Q' R' r d → Post Q R r d
        on_result (ok a) d p = hq a d p
        on_result (err e) d p = hr e d p

-- What is raised is trouble of an allowed kind.
abbrev pub Stops : (Trouble → Type 0) → Exn → Type 0
Stops K (config_error c) = ⊥
Stops K (trouble e) = K e

-- What the single operations do to a disk, where `R` covers every exit before the end.
module _ {T : Type 0} {K : Trouble → Type 0} {P R : Disk T → Type 0} where
  pub exists-Triple :
      (p : FilePath)
      → ((d : Disk T) → P d → R d)
      → Triple K P (exists p) (λ b d. P d × (is_some (file p d) ≡ b)) (λ e d. R d × Stops K e)
  unfolding exists
  exists-Triple p pr =
      Triple-act _ _ (λ d h. (h, refl)) (λ d e k h. (pr d h, k)) (λ d e k h. (pr d h, k))
        (λ d t e k h. (pr d h, k))

  pub sync-Triple :
      ((d : Disk T) → P d → R d) → Triple K P sync (λ _ d. P d) (λ e d. R d × Stops K e)
  unfolding sync
  sync-Triple pr =
      Triple-act _ _ (λ d h. h) (λ d e k h. (pr d h, k)) (λ d e k h. (pr d h, k))
        (λ d t e k h. (pr d h, k))

  module _ {Q : Disk T → Type 0} where
    pub write-Triple :
        (p : FilePath) (t : T)
        → ((d : Disk T) → P d → Q (put_file p (some t) d))
        → ((d : Disk T) → P d → R d)
        → ((d : Disk T) (u : T) → P d → R (put_file p (some u) d))
        → Triple K P (write p t) (λ _ d. Q d) (λ e d. R d × Stops K e)
    unfolding write
    write-Triple p t hq pr ht =
        Triple-act _ _ (λ d h. hq d h) (λ d e k h. (pr d h, k)) (λ d e k h. (ht d t h, k))
          (λ d u e k h. (ht d u h, k))

    pub rename-Triple :
        (p q : FilePath)
        → ((d : Disk T) → P d → is_some (file p d) ≡ true)
        → ((d : Disk T) (t : T)
            → P d
            → file p d ≡ some t
            → Q (put_file q (some t) (put_file p none d)))
        → ((d : Disk T) → P d → R d)
        → ((d : Disk T) → Q d → R d)
        → Triple K P (rename p q) (λ _ d. Q d) (λ e d. R d × Stops K e)
    unfolding rename
    rename-Triple p q here hq pr qr =
        Triple-act _ _ (λ d h. done d h (file p d) refl (here d h)) (λ d e k h. (pr d h, k))
          (λ d e k h. (late d h (file p d) refl, k)) (λ d u e k h. (pr d h, k))
      where
        done :
            (d : Disk T)
            → P d
            → (o : Option T) → file p d ≡ o
            → is_some o ≡ true
            → Post {A = Unit {0}}
                (λ _ d. Q d)
                (λ e d. R d × Stops K e)
                (renamed p q d o).0
                (renamed p q d o).1
        done d h none e s = cc
        done d h (some t) e s = hq d t h e

        late : (d : Disk T) → P d → (o : Option T) → file p d ≡ o → R (renamed p q d o).1
        late d h none e = pr d h
        late d h (some t) e = qr _ (hq d t h e)

    pub remove-Triple :
        (p : FilePath)
        → ((d : Disk T) → P d → is_some (file p d) ≡ true)
        → ((d : Disk T) → P d → Q (put_file p none d))
        → ((d : Disk T) → P d → R d)
        → ((d : Disk T) → Q d → R d)
        → Triple K P (remove p) (λ _ d. Q d) (λ e d. R d × Stops K e)
    unfolding remove
    remove-Triple p here hq pr qr =
        Triple-act _ _ (λ d h. done d h (file p d) (here d h)) (λ d e k h. (pr d h, k))
          (λ d e k h. (late d h (file p d), k)) (λ d u e k h. (pr d h, k))
      where
        done :
            (d : Disk T)
            → P d
            → (o : Option T) → is_some o ≡ true
            → Post {A = Unit {0}}
                (λ _ d. Q d)
                (λ e d. R d × Stops K e)
                (removed p d o).0
                (removed p d o).1
        done d h none e = cc
        done d h (some t) e = hq d h

        late : (d : Disk T) → P d → (o : Option T) → R (removed p d o).1
        late d h none = pr d h
        late d h (some t) = qr _ (hq d h)

module _ {T : Type 0} (K : Trouble → Type 0) where
  -- Why a read fails: there is no file, or trouble of an allowed kind.
  abbrev pub ReadFails : FilePath → Exn → Disk T → Type 0
  ReadFails p (config_error c) d = ⊥
  ReadFails p (trouble io_error) d = (file p d ≡ none) ⊎ K io_error
  ReadFails p (trouble e) d = K e

module _ {T : Type 0} {K : Trouble → Type 0} where
  module _ {P : Disk T → Type 0} where
    pub read-Triple :
        (p : FilePath)
        → Triple K P (read p) (λ t d. P d × (file p d ≡ some t)) (λ e d. P d × ReadFails K p e d)
    unfolding read
    read-Triple p =
        Triple-act _ _ (λ d h. done d h (file p d) refl) (λ d e k h. (h, why d e k))
          (λ d e k h. (h, why d e k)) (λ d u e k h. (h, why d e k))
      where
        why : (d : Disk T) (e : Trouble) → K e → ReadFails K p (trouble e) d
        why d io_error k = inr k
        why d memory_error k = k
        why d power_cut k = k

        done :
            (d : Disk T)
            → P d
            → (o : Option T) → file p d ≡ o
            → Post
                (λ t d. P d × (file p d ≡ some t))
                (λ e d. P d × ReadFails K p e d)
                (contents o)
                d
        done d h none e = (h, inl e)
        done d h (some t) e = (h, e)

-- To remove what is not there changes nothing.
pub put_file-none :
    {T : Type 0} (p : FilePath) (d : Disk T) → is_some (file p d) ≡ false → put_file p none d ≡ d
put_file-none config_path d h = ground arith
put_file-none tmp_path d h = ground arith
put_file-none old_path d h = ground arith
put_file-none cleanup_path d h = ground arith

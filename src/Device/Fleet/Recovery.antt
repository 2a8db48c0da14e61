-- ===== src/Device/Fleet/Recovery.antt =====
-- DeviceManager.retry_failed_devices: the two sets of devices through a pass.
use pico_dualcore.Prelude.{
  ℕ, ◌+◌, true, ◌∙◌, inl, inr, if◌then◌else◌, Bool-cases, String, Option, none, some, List, [], ◌∷◌,
  ◌++◌, ◌≡◌, refl, arith, length, length-append,
}
use text.Mathlib.Text.{◌==◌ as str_eq}
use text.Mathlib.TextEquality.{eq_iff}
use pico_dualcore.Device.{ManagedDevice, new_device, Init, initialized, init_os_error, init_defect}
use pico_dualcore.Device.Fleet.{
  Definition, FailedDevice, DeviceManager, Created, created, create_os_error, create_defect,
  Retried, boot_recovered, boot_recovery_failed, put_failed, find_failed, delete_failed, by_probe,
  by_creation, promote, late_retry_failure_result, retry_device, retry_failed_devices, recovered,
  one_result, prepend,
}

length-delete_failed :
    (id : String) (fs : List FailedDevice) {f : FailedDevice}
    → find_failed id fs ≡ some f
    → length (delete_failed id fs) + 1 ≡ length fs
unfolding find_failed delete_failed
length-delete_failed id [] h = ground arith
length-delete_failed id (g ∷ fs) {f} h =
    let ih : find_failed id fs ≡ some f → length (delete_failed id fs) + 1 ≡ length fs =
      λ h'. length-delete_failed id fs h' in
    ground arith

length-put_failed :
    (id : String) (fs : List FailedDevice) {f : FailedDevice} (info : FailedDevice)
    → find_failed id fs ≡ some f
    → length (put_failed id info fs) ≡ length fs
unfolding find_failed put_failed
length-put_failed id [] info h = ground arith
length-put_failed id (g ∷ fs) {f} info h =
    let ih : find_failed id fs ≡ some f → length (put_failed id info fs) ≡ length fs =
      λ h'. length-put_failed id fs info h' in
    ground arith

recovered-append : (rs ss : List Retried) → recovered (rs ++ ss) ≡ recovered rs + recovered ss
unfolding recovered
recovered-append [] ss = omega arith
recovered-append (boot_recovered id used ∷ rs) ss = omega (arith, recovered-append rs ss)
recovered-append (boot_recovery_failed id e used w ∷ rs) ss = recovered-append rs ss

-- How often an id is that of an active device, and of a record of a failure.
abbrev pub count_active : String → List ManagedDevice → ℕ
count_active id [] = 0
count_active id (d ∷ ds) = (if str_eq d.device_id id then 1 else 0) + count_active id ds

abbrev pub count_failed : String → List FailedDevice → ℕ
count_failed id [] = 0
count_failed id (f ∷ fs) = (if str_eq f.id id then 1 else 0) + count_failed id fs

abbrev pub holds : String → DeviceManager → ℕ
holds id m = count_active id m.active + count_failed id m.failed

count_active-append :
    (id : String) (ds es : List ManagedDevice)
    → count_active id (ds ++ es) ≡ count_active id ds + count_active id es
count_active-append id [] es = omega arith
count_active-append id (d ∷ ds) es = omega (arith, count_active-append id ds es)

count_failed-delete :
    (id j : String) (fs : List FailedDevice) {f : FailedDevice}
    → find_failed j fs ≡ some f
    → count_failed id (delete_failed j fs) + (if str_eq j id then 1 else 0) ≡ count_failed id fs
unfolding find_failed delete_failed
count_failed-delete id j [] h = ground arith
count_failed-delete id j (g ∷ fs) {f} h = elim (Bool-cases (str_eq g.id j)) [
  | inl here ↦ let same : g.id ≡ j = ground (arith, eq_iff g.id j) in rw (here, same) (omega arith)
  | inr other ↦
      let ih = count_failed-delete id j fs {f = f} (ground arith) in rw other (omega (arith, ih))
]

found_id :
    (j : String) (fs : List FailedDevice) {f : FailedDevice} → find_failed j fs ≡ some f → f.id ≡ j
unfolding find_failed
found_id j [] h = ground arith
found_id j (g ∷ fs) {f} h = elim (Bool-cases (str_eq g.id j)) [
  | inl here ↦
      let same : g.id ≡ j = ground (arith, eq_iff g.id j) in
      let it : some g ≡ some f = rw here at h in ground (arith, same, it)
  | inr other ↦ found_id j fs (rw other at h)
]

count_failed-put :
    (id j : String) (fs : List FailedDevice) {f : FailedDevice} (info : FailedDevice)
    → info.id ≡ j
    → find_failed j fs ≡ some f
    → count_failed id (put_failed j info fs) ≡ count_failed id fs
unfolding find_failed put_failed
count_failed-put id j [] info e h = ground arith
count_failed-put id j (g ∷ fs) {f} info e h = elim (Bool-cases (str_eq g.id j)) [
  | inl here ↦ let same : g.id ≡ j = ground (arith, eq_iff g.id j) in rw (here, same, e) refl
  | inr other ↦
      let ih = count_failed-put id j fs {f = f} info e (ground arith) in
      rw other (omega (arith, ih))
]

-- What a pass, or a part of one, does to the two sets: each id is held as often as before, and each
-- recovery moves one device.
pub record Conserves (m : DeviceManager) (rs : List Retried) (m' : DeviceManager) : Type 0 where
  pub kept : (id : String) → holds id m' ≡ holds id m
  pub promoted : length m'.active ≡ length m.active + recovered rs
  pub cleared : length m'.failed + recovered rs ≡ length m.failed

promote-Conserves :
    (d : Definition) (f : FailedDevice) (m : DeviceManager)
    → find_failed d.id m.failed ≡ some f
    → Conserves m ((promote d f m).0 ∷ []) (promote d f m).1
unfolding promote recovered new_device
promote-Conserves d f m h =
    let a = length-delete_failed d.id m.failed h in
    record {
      kept = λ id.
          omega (arith, count_active-append id m.active _, count_failed-delete id d.id m.failed h);
      promoted = length-append m.active _;
      cleared = a;
    }

late_retry_failure_result-Conserves :
    (id : String) (f g : FailedDevice) (error : String) (m : DeviceManager)
    → g.id ≡ f.id
    → find_failed id m.failed ≡ some f
    → Conserves m
        ((late_retry_failure_result id g error m).0 ∷ [])
        (late_retry_failure_result id g error m).1
unfolding late_retry_failure_result recovered
late_retry_failure_result-Conserves id f g error m same h =
    let a = length-put_failed id m.failed (record g { retry_failure_logged = true }) h in
    record {
      kept = λ j. omega (
        arith,
        count_failed-put j id m.failed (record g { retry_failure_logged = true })
            (same ∙ found_id id m.failed h) h,
      );
      promoted = omega arith;
      cleared = omega (arith, a);
    }

abbrev after_error : String → FailedDevice → FailedDevice
after_error x f = record f {
  initialization_attempts_used = f.initialization_attempts_used + 1;
  failure_reason = some x;
}

by_creation-Conserves :
    (d : Definition) (f : FailedDevice) (m : DeviceManager) (i : Init) (c : Created) {r : Retried}
    {m' : DeviceManager}
    → find_failed d.id m.failed ≡ some f
    → by_creation d f m i c ≡ some (r, m')
    → Conserves m (r ∷ []) m'
unfolding by_creation by_probe
by_creation-Conserves d f m initialized created h e =
    let a = promote-Conserves d f m h in ground arith
by_creation-Conserves d f m (init_os_error x) created h e =
    let a = late_retry_failure_result-Conserves d.id f (after_error x f) x m refl h in ground arith
by_creation-Conserves d f m init_defect created h e = ground arith
by_creation-Conserves d f m i (create_os_error x) h e =
    let a =
      late_retry_failure_result-Conserves d.id f (record f { failure_reason = some x }) x m refl
        h in
    ground arith
by_creation-Conserves d f m i create_defect h e = ground arith

module _ (create : Definition → Created) (probe : Definition → Init) where
  retry_device-Conserves :
      (d : Definition) (m : DeviceManager) {rs : List Retried} {m' : DeviceManager}
      → retry_device create probe d m ≡ some (rs, m')
      → Conserves m rs m'
  unfolding retry_device recovered
  retry_device-Conserves d m {rs} {m'} e = by_record (find_failed d.id m.failed) refl e
    where
      by_outcome :
          (o : Option (Retried × DeviceManager))
          → ((r : Retried) (m' : DeviceManager) → o ≡ some (r, m') → Conserves m (r ∷ []) m')
          → one_result o ≡ some (rs, m')
          → Conserves m rs m'
      by_outcome none c e = ground arith
      by_outcome (some (r, m')) c e = let a = c r m' refl in ground arith

      by_record :
          (o : Option FailedDevice)
          → find_failed d.id m.failed ≡ o
          → elim o as (λ k. Option (List Retried × DeviceManager)) [
            | none ↦ some ([], m)
            | some f ↦ one_result (by_creation d f m (probe d) (create d))
          ]
            ≡ some (rs, m')
          → Conserves m rs m'
      by_record none o e = ground arith
      by_record (some f) o e =
          by_outcome (by_creation d f m (probe d) (create d))
            (λ r m' c. by_creation-Conserves d f m (probe d) (create d) o c) e

  -- A pass that does not raise holds every id as often as before, among the active devices and the
  -- records of failures together; and each recovery it reports is one more active device and one less
  -- record.
  pub retry_failed_devices-Conserves :
      (ds : List Definition) (m : DeviceManager) {rs : List Retried} {m' : DeviceManager}
      → retry_failed_devices create probe ds m ≡ some (rs, m')
      → Conserves m rs m'
  unfolding retry_failed_devices recovered
  retry_failed_devices-Conserves [] m e = ground arith
  retry_failed_devices-Conserves (d ∷ ds) m {rs} {m'} e =
      go (λ m₁ r m₂. retry_failed_devices-Conserves ds m₁) (retry_device create probe d m) refl e
    where
      joined :
          ((m₁ : DeviceManager) (r : List Retried) (m₂ : DeviceManager)
            → retry_failed_devices create probe ds m₁ ≡ some (r, m₂)
            → Conserves m₁ r m₂)
          → (m₁ : DeviceManager) (first : List Retried) → Conserves m first m₁
          → (o : Option (List Retried × DeviceManager))
          → retry_failed_devices create probe ds m₁ ≡ o
          → prepend first o ≡ some (rs, m')
          → Conserves m rs m'
      joined ih m₁ first a none o e = ground arith
      joined ih m₁ first a (some (rest, m₂)) o e =
          let b = ih m₁ rest m₂ o in let c = recovered-append first rest in ground arith

      go :
          ((m₁ : DeviceManager) (r : List Retried) (m₂ : DeviceManager)
            → retry_failed_devices create probe ds m₁ ≡ some (r, m₂)
            → Conserves m₁ r m₂)
          → (o : Option (List Retried × DeviceManager)) → retry_device create probe d m ≡ o
          → elim o as (λ k. Option (List Retried × DeviceManager)) [
            | none ↦ none
            | some (first, m₁) ↦ prepend first (retry_failed_devices create probe ds m₁)
          ]
            ≡ some (rs, m')
          → Conserves m rs m'
      go ih none o e = ground arith
      go ih (some (first, m₁)) o e =
          joined ih m₁ first (retry_device-Conserves d m o)
            (retry_failed_devices create probe ds m₁) refl e

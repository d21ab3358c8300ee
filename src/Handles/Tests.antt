-- ===== src/Handles/Tests.antt =====
-- A kernel with one object, of which names are up to three bytes.
use mtl.Base.{
  ℕ, ◌-◌, ◌≡◌, refl, true, some, List, [], ◌∷◌, ◌++◌, ◌==◌, take, length, if◌then◌else◌, arith,
}
use mtl.Magenta.{is_ok, ok, failed, bad_handle}
use mtl.Vmo.{replicate}
use mtl.Handles.{Kernel, get_object_name, set_object_name, get_koid}
use mtl.Handles.Names.{IsLawful, before_null, get_object_name-set_object_name}

abbrev kernel : Kernel (List ℕ)
kernel = record {
  koid_invalid = 0;
  max_name_len = 4;
  object_get_info =
      λ h w. (if h == 30 then ok else failed bad_handle, record { koid = 7; related_koid = 0 });
  object_get_name =
      λ h n w. if h == 30 then (ok, w ++ replicate (n - length w) 0) else (failed bad_handle, []);
  object_set_name = λ h name w. if h == 30 then (ok, take 3 name) else (failed bad_handle, w);
  process_self = λ w. 30;
  thread_self = λ w. 30;
}

kernel-IsLawful : IsLawful kernel (λ w h. h == 30) (λ w h. w)
kernel-IsLawful = record {
  set_name_lem = λ h name w e. ground (arith, e);
  get_name_lem = λ h w e. ground (arith, e);
  max_range = omega arith;
}

get_object_name-set_object_name_example :
    (is_ok (set_object_name kernel 30 (97 ∷ 98 ∷ []) []).0 ≡ true)
    × (get_object_name kernel 30 (set_object_name kernel 30 (97 ∷ 98 ∷ []) []).1
        ≡ some (before_null (take 3 (97 ∷ 98 ∷ []))))
get_object_name-set_object_name_example =
    get_object_name-set_object_name kernel (λ w h. h == 30) (λ w h. w) kernel-IsLawful 30
      (97 ∷ 98 ∷ []) [] refl

-- ObjectInfo, GetKoidOfInvalidHandle and GetNameOfInvalidHandle
invalid_handle : (get_koid kernel 0 [] ≡ 0) × (get_object_name kernel 0 [] ≡ some [])
unfolding get_koid get_object_name
invalid_handle = (refl, refl)

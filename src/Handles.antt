-- ===== src/Handles.antt =====
-- handles/object_info.cc. A string is its bytes, and the kernel's calls are an interface.
pub mod Names
mod Tests
use mtl.Base.{ℕ, Bool, true, false, Option, none, some, List, [], ◌∷◌, ◌==◌, if◌then◌else◌, map}
use mtl.Magenta.{Status, is_ok}

-- mx_info_handle_basic_t
pub record HandleInfo : Type 0 where
  pub koid : ℕ
  pub related_koid : ℕ

-- mx_object_get_info, for the basic information; mx_object_get_property and mx_object_set_property,
-- for the name, where get fills a buffer of the given size; mx_process_self; and the handle of the
-- current thread.
pub record Kernel (W : Type 0) : Type 0 where
  pub koid_invalid : ℕ
  pub max_name_len : ℕ
  pub object_get_info : ℕ → W → Status × HandleInfo
  pub object_get_name : ℕ → ℕ → W → Status × List ℕ
  pub object_set_name : ℕ → List ℕ → W → Status × W
  pub process_self : W → ℕ
  pub thread_self : W → ℕ

-- std::string(name), which reads to the first null byte; none is a read behind the buffer.
unfoldable pub string_of : List ℕ → Option (List ℕ)
string_of [] = none
string_of (b ∷ bs) =
    let rest = string_of bs in
    if b == 0 then some [] else elim rest [ none ↦ none | some s ↦ some (b ∷ s) ]

module _ {W : Type 0} (kernel : Kernel W) where
  unfoldable pub get_koid : ℕ → W → ℕ
  get_koid handle w =
      let (status, info) = kernel.object_get_info handle w in
      if is_ok status then info.koid else kernel.koid_invalid

  unfoldable pub get_related_koid : ℕ → W → ℕ
  get_related_koid handle w =
      let (status, info) = kernel.object_get_info handle w in
      if is_ok status then info.related_koid else kernel.koid_invalid

  unfoldable pub get_object_name : ℕ → W → Option (List ℕ)
  get_object_name handle w =
      let (status, name) = kernel.object_get_name handle kernel.max_name_len w in
      if is_ok status then string_of name else some []

  unfoldable pub set_object_name : ℕ → List ℕ → W → Status × W
  set_object_name handle name w = kernel.object_set_name handle name w

  unfoldable pub get_current_process_koid : W → ℕ
  get_current_process_koid w = get_koid (kernel.process_self w) w

  unfoldable pub get_current_process_name : W → Option (List ℕ)
  get_current_process_name w = get_object_name (kernel.process_self w) w

  unfoldable pub get_current_thread_koid : W → ℕ
  get_current_thread_koid w = get_koid (kernel.thread_self w) w

  unfoldable pub get_current_thread_name : W → Option (List ℕ)
  get_current_thread_name w = get_object_name (kernel.thread_self w) w

  unfoldable pub set_current_thread_name : List ℕ → W → Status × W
  set_current_thread_name name w = set_object_name (kernel.thread_self w) name w

-- ===== src/Upstream.antt =====
-- Upstream, UpstreamGroup and UpstreamAddress of
-- workflow-step-by-step/src/manager/UpstreamManager.cc: which addresses of an upstream are alive.
-- An address (an `UpstreamAddress *`) is a number, and its fields are functions of it; so is the
-- string that names it. A group is the number `group_id` + 2, so 1 is the default group and 0 is
-- NULL; the fields of a group are functions of it, as its constructor leaves them until an address
-- comes into it. An `int` is kept modulo 2^32. `nalive` and `nbreak` are lowered only for an address
-- that they count. The locks make an operation one step. `now` is the clock, in seconds.
pub mod Healthy
pub mod Breakers
pub mod Checks
pub mod Members
pub mod Leaving
pub mod Choice
pub mod Steps
pub mod Recovery
pub mod Select
pub mod Get
use demo_submodule.Prelude.{
  erase, ℕ, zero, suc, ◌+◌, ◌-◌, ◌%◌, ◌^◌, Bool, true, false, ◌&&◌, not, Option, none, some, List,
  [], ◌∷◌, ◌++◌, ltb, leb, ◌==◌, if◌then◌else◌, update, length,
}

pub record Upstream : Type 0 where
  -- the fields of the addresses
  pub address : ℕ → ℕ
  pub params_group : ℕ → ℕ
  pub is_master : ℕ → Bool
  pub weight : ℕ → ℕ
  pub max_fails : ℕ → ℕ
  pub group : ℕ → ℕ
  pub fail_count : ℕ → ℕ
  pub broken_timeout : ℕ → ℕ
  -- whether `list.next` is set
  pub listed : ℕ → Bool
  -- the fields of the groups
  pub masters : ℕ → List ℕ
  pub slaves : ℕ → List ℕ
  pub breaker_list : ℕ → List ℕ
  pub nbreak : ℕ → ℕ
  pub nalive : ℕ → ℕ
  pub group_weight : ℕ → ℕ
  -- the fields of the upstream
  pub server_map : ℕ → List ℕ
  pub all_masters : List ℕ
  pub total_weight : ℕ
  pub available_weight : ℕ

-- What the constructor of an address makes of its parameters; a `group_id` below 0 is `none`.
abbrev pub some_count : ℕ → ℕ
some_count n = if n == 0 then 1 else n

abbrev pub group_number : Option ℕ → ℕ
group_number none = 1
group_number (some group_id) = group_id + 2

-- Upstream::Upstream, with addresses that were just made.
unfoldable pub create :
    (address : ℕ → ℕ) (group_id : ℕ → Option ℕ) (is_master : ℕ → Bool) (weight max_fails : ℕ → ℕ)
    → Upstream
create address group_id is_master weight max_fails = record {
  address = address;
  params_group = λ a. group_number (group_id a);
  is_master = is_master;
  weight = λ a. some_count (weight a);
  max_fails = λ a. some_count (max_fails a);
  group = λ _. 0;
  fail_count = λ _. 0;
  broken_timeout = λ _. 0;
  listed = λ _. false;
  masters = λ _. [];
  slaves = λ _. [];
  breaker_list = λ _. [];
  nbreak = λ _. 0;
  nalive = λ _. 0;
  group_weight = λ _. 0;
  server_map = λ _. [];
  all_masters = [];
  total_weight = 0;
  available_weight = 0;
}

abbrev pub add_int : ℕ → ℕ → ℕ
add_int a b = (a + b) % 2 ^ 32

abbrev pub sub_int : ℕ → ℕ → ℕ
sub_int a b = (a + (2 ^ 32 - b % 2 ^ 32)) % 2 ^ 32

abbrev pub mttr_second : ℕ
mttr_second = 30

-- fail_count < params.max_fails
abbrev pub is_alive : Upstream → ℕ → Bool
is_alive s a = ltb (s.fail_count a) (s.max_fails a)

-- params.group_id >= 0
abbrev pub is_grouped : Upstream → ℕ → Bool
is_grouped s a = ltb 1 (s.params_group a)

unfoldable pub lose_one_server : ℕ → ℕ → Upstream → Upstream
lose_one_server g a s =
    let left = s.nalive g - 1 in
    let available =
      (if (left == 0) && is_grouped s a
        then sub_int s.available_weight (s.group_weight g)
        else s.available_weight) in
    record s {
      nalive = update s.nalive g left;
      available_weight =
          if not (is_grouped s a) && s.is_master a
          then sub_int available (s.weight a)
          else available;
    }

unfoldable pub gain_one_server : ℕ → ℕ → Upstream → Upstream
gain_one_server g a s =
    let available =
      (if (s.nalive g == 0) && is_grouped s a
        then add_int s.available_weight (s.group_weight g)
        else s.available_weight) in
    record s {
      nalive = update s.nalive g (s.nalive g + 1);
      available_weight =
          if not (is_grouped s a) && s.is_master a
          then add_int available (s.weight a)
          else available;
    }

abbrev pub count_master : ℕ → Upstream → Upstream
count_master a s = record s {
  total_weight = if s.is_master a then add_int s.total_weight (s.weight a) else s.total_weight;
  all_masters = if s.is_master a then s.all_masters ++ a ∷ [] else s.all_masters;
}

abbrev pub join_group : ℕ → ℕ → Upstream → Upstream
join_group g a s = record s {
  group = update s.group a g;
  group_weight =
      if s.is_master a
      then update s.group_weight g (add_int (s.group_weight g) (s.weight a))
      else s.group_weight;
  masters = if s.is_master a then update s.masters g (s.masters g ++ a ∷ []) else s.masters;
  slaves = if s.is_master a then s.slaves else update s.slaves g (s.slaves g ++ a ∷ []);
}

-- Upstream::add
unfoldable pub add : ℕ → Upstream → Upstream
add a s =
    let mapped = record s {
      server_map = update s.server_map (s.address a) (s.server_map (s.address a) ++ a ∷ []);
    } in
    join_group (s.params_group a) a (gain_one_server (s.params_group a) a (count_master a mapped))

abbrev pub leave_group : ℕ → ℕ → Upstream → Upstream
leave_group g a s = record s {
  group_weight =
      if s.is_master a
      then update s.group_weight g (sub_int (s.group_weight g) (s.weight a))
      else s.group_weight;
  masters = if s.is_master a then update s.masters g (erase a (s.masters g)) else s.masters;
  slaves = if s.is_master a then s.slaves else update s.slaves g (erase a (s.slaves g));
}

-- The body of the first loop of `del`, for an address that is in the group `g`.
pub del_address : ℕ → ℕ → Upstream → Upstream
del_address g a s =
    let s' = record s {
      total_weight = if s.is_master a then sub_int s.total_weight (s.weight a) else s.total_weight;
      group = update s.group a 0;
    } in
    leave_group g a (if is_alive s a then lose_one_server g a s' else s')

pub del_loop : List ℕ → Upstream → Upstream
del_loop [] s = s
del_loop (a ∷ rest) s = del_loop rest (del_address (s.group a) a s)

abbrev pub without : (ℕ → ℕ) → ℕ → List ℕ → List ℕ
without address name [] = []
without address name (x ∷ xs) =
    if address x == name then without address name xs else x ∷ without address name xs

-- Upstream::del, and how many masters it took out.
pub del : ℕ → Upstream → ℕ × Upstream
del name s =
    let s' = del_loop (s.server_map name) s in
    let kept = without s.address name s'.all_masters in
    (
      length s'.all_masters - length kept,
      record s' { server_map = update s'.server_map name []; all_masters = kept },
    )

-- An address that has failed too often goes to the list of its group.
unfoldable pub break_down : (now : ℕ) → ℕ → ℕ → Upstream → Upstream
break_down now g a s = lose_one_server g a (record s {
  broken_timeout = update s.broken_timeout a (now + mttr_second);
  listed = update s.listed a true;
  breaker_list = update s.breaker_list g (s.breaker_list g ++ a ∷ []);
  nbreak = update s.nbreak g (s.nbreak g + 1);
})

abbrev pub set_fail_count : ℕ → ℕ → Upstream → Upstream
set_fail_count a n s = record s { fail_count = update s.fail_count a n }

-- The body of the loop of `disable_server`.
unfoldable pub disable : (now : ℕ) → ℕ → Upstream → Upstream
disable now a s =
    let s' = set_fail_count a (s.max_fails a) s in
    if (s.group a == 0) then s' else if s.listed a then s' else break_down now (s.group a) a s'

unfoldable pub disable_loop : (now : ℕ) → List ℕ → Upstream → Upstream
disable_loop now [] s = s
disable_loop now (a ∷ rest) s = disable_loop now rest (disable now a s)

unfoldable pub disable_server : (now : ℕ) → ℕ → Upstream → Upstream
disable_server now name s = disable_loop now (s.server_map name) s

abbrev pub unlist : ℕ → ℕ → Upstream → Upstream
unlist g a s = record s {
  listed = update s.listed a false;
  breaker_list = update s.breaker_list g (erase a (s.breaker_list g));
}

-- Upstream::notify_available
pub notify_available : ℕ → Upstream → Upstream
notify_available a s =
    let gained = (if not (is_alive s a) then gain_one_server (s.group a) a s else s) in
    if s.group a == 0
    then set_fail_count a 0 s
    else if s.listed a
    then set_fail_count a 0 (unlist (s.group a) a gained)
    else set_fail_count a 0 s

pub enable_loop : List ℕ → Upstream → Upstream
enable_loop [] s = s
enable_loop (a ∷ rest) s = enable_loop rest (notify_available a s)

pub enable_server : ℕ → Upstream → Upstream
enable_server name s = enable_loop (s.server_map name) s

-- Upstream::notify_unavailable
pub notify_unavailable : (now : ℕ) → ℕ → Upstream → Upstream
notify_unavailable now a s =
    let fails = (s.fail_count a + 1) % 2 ^ 32 in
    let s' = set_fail_count a fails s in
    if s.group a == 0
    then s'
    else if (fails == s.max_fails a) && not (s.listed a)
    then break_down now (s.group a) a s'
    else s'

-- The body of the loop of `check_one_breaker`, for an address whose time has come.
pub recover : ℕ → ℕ → Upstream → Upstream
recover g a s =
    let s' = set_fail_count a (s.max_fails a - 1) s in
    let risen =
      (if is_alive s a then s else if s.group a == g then gain_one_server g a s' else s') in
    record (unlist g a risen) { nbreak = update risen.nbreak g (risen.nbreak g - 1) }

pub check_loop : ℕ → (now : ℕ) → List ℕ → Upstream → Upstream
check_loop g now [] s = s
check_loop g now (a ∷ rest) s =
    check_loop g now rest (if leb (s.broken_timeout a) now then recover g a s else s)

-- Upstream::check_one_breaker
pub check_one_breaker : ℕ → (now : ℕ) → Upstream → Upstream
check_one_breaker g now s = if s.nbreak g == 0 then s else check_loop g now (s.breaker_list g) s

pub first_alive : Upstream → List ℕ → Option ℕ
first_alive s [] = none
first_alive s (a ∷ rest) = if is_alive s a then some a else first_alive s rest

abbrev pub prefer : Option ℕ × Upstream → Upstream → Option ℕ → Option ℕ × Upstream
prefer slave s none = slave
prefer slave s (some a) = (some a, s)

-- UpstreamGroup::get_one; `shuffled` and `shuffled_slaves` are what std::shuffle makes of the
-- vectors.
pub get_one : ℕ → (shuffled shuffled_slaves : List ℕ) → Upstream → Option ℕ × Upstream
get_one g shuffled shuffled_slaves s =
    let s' = record s { masters = update s.masters g shuffled } in
    let slave : Option ℕ × Upstream =
      (first_alive s shuffled_slaves, record s' { slaves = update s.slaves g shuffled_slaves }) in
    if s.nalive g == 0 then (none, s) else prefer slave s' (first_alive s shuffled)

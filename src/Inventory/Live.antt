-- ===== src/Inventory/Live.antt =====
-- celery_active_queues_by_node of nautobot_vpn_manager/worker_inventory.py. Asking the broker is a
-- parameter: the attempt of a number answers or raises. An answer has, for each node, the names of
-- its queues that have one.
use nautobot_docker_compose.Base.{
  ◌||◌, keep, inr, inl, ◌⊎◌, refl, not, zero, true, ◌≡◌, suc, false, some, none, List, Bool, ℕ,
  Option, [], ◌∷◌, nat_eq, list_eq,
}
use nautobot_docker_compose.Base.Text.{is_empty, Text}
use nautobot_docker_compose.Base.Dedupe.{dedupe_onto}
use nautobot_docker_compose.Base.Sort.{text_le, sort_by}
use nautobot_docker_compose.Base.Dict.{insert, Dict}

pub data Attempt : Type 0 where
  answered : Dict (List Text) → Attempt
  refused_with : Text → Attempt

-- `queues_by_node` and the last error
pub record LiveQueues : Type 0 where
  pub queues_by_node : Dict (List Text)
  pub error : Option Text

-- `sorted(set(queue_names))` of each node
unfoldable pub nodes_of : Dict (List Text) → Dict (List Text) → Dict (List Text)
nodes_of queues_by_node [] = queues_by_node
nodes_of queues_by_node ((node_name, names) ∷ active_queues) =
    nodes_of
      (insert node_name
        (sort_by text_le (dedupe_onto [] (keep (λ name. not (is_empty name)) names)))
        queues_by_node)
      active_queues

-- The error of an attempt that raised.
abbrev error_of : Attempt → Option Text → Option Text
error_of (answered active_queues) last_error = last_error
error_of (refused_with message) last_error = some message

abbrev answer_or : Attempt → LiveQueues → LiveQueues
answer_or (answered active_queues) rest = record {
  queues_by_node = nodes_of [] active_queues;
  error = none;
}
answer_or (refused_with message) rest = rest

-- `max(1, attempts)`
abbrev pub at_least_one : ℕ → ℕ
at_least_one zero = 1
at_least_one (suc attempts) = suc attempts

-- An attempt answers or raises.
Attempt-cases :
    (a : Attempt)
    → ((queues : Dict (List Text)) × (a ≡ answered queues))
      ⊎ ((message : Text) × (a ≡ refused_with message))
Attempt-cases (answered queues) = inl (queues, refl)
Attempt-cases (refused_with message) = inr (message, refl)

abbrev pub is_error : Option Text → Bool
is_error none = false
is_error (some message) = true

abbrev is_answer : Attempt → Bool
is_answer (answered queues) = true
is_answer (refused_with message) = false

module _ (ask : ℕ → Attempt) where
  -- `for _ in range(attempts)`, from the attempt of this number on, with the last error so far.
  unfoldable pub ask_again : ℕ → ℕ → Option Text → LiveQueues
  unfolding nodes_of
  ask_again zero number last_error = record { queues_by_node = []; error = last_error }
  ask_again (suc attempts) number last_error =
      answer_or (ask number) (ask_again attempts (suc number) (error_of (ask number) last_error))

  -- `celery_active_queues_by_node`
  unfoldable pub celery_active_queues_by_node : ℕ → LiveQueues
  unfolding ask_again
  celery_active_queues_by_node attempts = ask_again (at_least_one attempts) 0 none

  -- Whether one of so many attempts answers, from a number on.
  unfoldable pub some_answer : ℕ → ℕ → Bool
  some_answer zero number = false
  some_answer (suc attempts) number = is_answer (ask number) || some_answer attempts (suc number)

  ask_again-error :
      (attempts number : ℕ) (message : Text)
      → is_error (ask_again attempts number (some message)).error
        ≡ not (some_answer attempts number)
  unfolding ask_again some_answer
  ask_again-error zero number message = refl
  ask_again-error (suc attempts) number message = elim (Attempt-cases (ask number)) [
    | inl (queues, e) ↦ rw e refl
    | inr (why, e) ↦ rw e (ask_again-error attempts (suc number) why)
  ]

  -- An error is reported exactly if none of the attempts answers, of which there is at least one.
  pub celery_active_queues_by_node-error :
      (attempts : ℕ)
      → is_error (celery_active_queues_by_node attempts).error
        ≡ not (some_answer (at_least_one attempts) 0)
  unfolding celery_active_queues_by_node ask_again some_answer
  celery_active_queues_by_node-error zero = elim (Attempt-cases (ask 0)) [
    | inl (queues, e) ↦ rw e refl
    | inr (why, e) ↦ rw e refl
  ]
  celery_active_queues_by_node-error (suc attempts) = elim (Attempt-cases (ask 0)) [
    | inl (queues, e) ↦ rw e refl
    | inr (why, e) ↦ rw e (ask_again-error attempts 1 why)
  ]

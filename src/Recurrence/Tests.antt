-- ===== src/Recurrence/Tests.antt =====
-- Runs of the code of internal/recurrence on example data.
use go_pet_project.Base.{
  ℕ, true, none, List, [], ◌∷◌, ◌++◌, ◌≡◌, ◌≢◌, ◌⊎◌, ◌<◌, refl, sym, ◌*◌, ◌+◌, arith, All, All2,
  length,
}
use mathlib.Core.List.{append-nil}
use go_pet_project.Base.Int.{pos, ◌+ℤ◌, ◌-ℤ◌, ◌*ℤ◌, ◌≤ℤ◌}
use go_pet_project.Base.Sort.{order_by, insert_row}
use go_pet_project.Base.Text.{runes, trim_space, is_blank}
use go_pet_project.Time.{Time}
use go_pet_project.Time.Calendar.{day_number, date_of}
use go_pet_project.Time.Zone.{
  IsConsistent, utc, local, date, clock, instant, reading_of, add_days, day_ns,
}
use go_pet_project.Time.Zone.Readings.{IsClear}
use go_pet_project.Errors.{Error, ok, err, map_rows}
use go_pet_project.World.{World, for_each}
use go_pet_project.Samples.{office, env, tables, env-IsTransactional}
use go_pet_project.Task.Domain.{Task, new_task_occurrence, restore_task}
use go_pet_project.Task.Repository as Tasks
use go_pet_project.Reminder.Domain.{new_before_deadline_reminder, restore_reminder, trigger_before}
use go_pet_project.Reminder.Repository as Reminders
use go_pet_project.Recurrence.Domain.{
  TaskSeries, ReminderRule, Zones, weekly, monthly, load_location, restore_task_series,
  next_deadline, advance_after_occurrence, restore_reminder_rule,
}
use go_pet_project.Recurrence.Domain.Deadlines.{next_deadline-days}
use go_pet_project.Recurrence.Domain.Months.{next_deadline-months}
use go_pet_project.Recurrence.Repository as Series
use go_pet_project.Recurrence.Processor
use go_pet_project.Recurrence.Processor.{process_one, process_once, process_due}
use go_pet_project.Recurrence.Processor.Occurrences.{IsOccurrence}
use go_pet_project.Recurrence.Processor.Polls.{claimed, process_once-generates, process_one_once}

-- A report that user 1 asks of user 2 each week, with a reminder an hour before.
abbrev weekly_report : TaskSeries
weekly_report = record {
  id = 61;
  creator_id = 1;
  assignee_id = 2;
  title = runes "report";
  description = [];
  frequency = weekly;
  interval = pos 1;
  next_deadline_at = pos 4500000000000;
  timezone = runes "UTC";
  ends_at = none;
  is_active = true;
  created_at = pos 1000000000000;
  updated_at = pos 1000000000000;
}

abbrev hour_rule : ReminderRule
hour_rule = record { id = 71; series_id = 61; offset_seconds = pos 3600 }

abbrev planned : World
planned = record office {
  tables = record tables { task_series = weekly_report ∷ []; reminder_rules = hour_rule ∷ [] };
}

abbrev zones : Zones
zones = env.zones

utc-IsConsistent : IsConsistent utc
utc-IsConsistent = record { in_force = λ s t h k. refl }

process_one-ok : (process_one weekly_report planned).0 ≡ ok tt
unfolding process_one Processor.create_task Processor.create_reminder Processor.advance
    new_task_occurrence new_before_deadline_reminder restore_task restore_reminder trigger_before
    Tasks.create Reminders.create Series.list_reminder_rules Series.update Series.find_by_id
    Series.to_domain restore_task_series restore_reminder_rule advance_after_occurrence
    next_deadline load_location trim_space is_blank order_by insert_row map_rows for_each add_days
    local instant reading_of day_number date_of ◌+ℤ◌ ◌-ℤ◌ ◌*ℤ◌ Tasks.to_model Tasks.to_domain
    Reminders.to_domain
process_one-ok = refl

-- The same occurrence, after the series has been renamed, in the tables that the first run has left.
abbrev renamed : TaskSeries
renamed = record weekly_report { title = runes "weekly report" }

abbrev processed : World
processed = record planned { tables = (process_one weekly_report planned).1.tables; step = 40 }

process_one_once_example : (process_one renamed processed).0 ≢ ok tt
process_one_once_example =
    process_one_once weekly_report renamed planned processed [] process_one-ok refl refl
      (sym (append-nil processed.tables.tasks))

process_once-generates_example :
    ((n : ℕ) × (ts : List Task) × ((process_once (pos 10) planned).0 ≡ ok n)
      × All2 IsOccurrence (claimed (pos 10) planned) ts
      × All
          (λ s. (s.is_active ≡ true) × (s.next_deadline_at ≤ℤ pos 5000000000000))
          (claimed (pos 10) planned)
      × (n ≡ length (claimed (pos 10) planned))
      × ((process_once (pos 10) planned).1.tables.tasks ≡ planned.tables.tasks ++ ts))
    ⊎ ((e : Error) × ((process_once (pos 10) planned).0 ≡ err e)
        × ((process_once (pos 10) planned).1.tables ≡ planned.tables))
process_once-generates_example = process_once-generates (pos 10) planned env-IsTransactional

-- UTC never changes.
utc-IsClear : (n : ℕ) → n < 9000000000000000000000000000 → IsClear utc (pos n)
unfolding ◌-ℤ◌
utc-IsClear n h = record { after_start = ground arith; before_finish = ground arith }

next_deadline-days_example :
    (next : Time) × (next_deadline zones weekly_report (pos 4500000000000) ≡ ok next)
    × (local utc next ≡ local utc (pos 4500000000000) +ℤ pos 7 *ℤ pos day_ns)
unfolding load_location is_blank local ◌+ℤ◌ ◌-ℤ◌ ◌*ℤ◌
next_deadline-days_example =
    next_deadline-days zones weekly_report (pos 4500000000000) utc (pos 7) refl utc-IsConsistent
      (omega arith) (omega arith) refl refl (utc-IsClear 609300000000000 (omega arith))

-- 2024-01-31 09:30.
abbrev end_of_january : Time
end_of_january = pos (738915 * 86400000000000 + 34200000000000)

abbrev monthly_report : TaskSeries
monthly_report = record weekly_report { frequency = monthly; next_deadline_at = end_of_january }

end_of_january-parts :
    (date utc end_of_january ≡ record { year = pos 2024; month = 1; day = 31 })
    × (clock utc end_of_january ≡ 34200000000000)
unfolding date clock local date_of ◌+ℤ◌ ◌-ℤ◌ ◌*ℤ◌
end_of_january-parts = (refl, refl)

-- A month later it is 2024-02-29 09:30.
next_deadline-months_example :
    (next : Time) × (next_deadline zones monthly_report end_of_january ≡ ok next)
    × (date utc next ≡ record { year = pos 2024; month = 2; day = 29 })
    × (clock utc next ≡ clock utc end_of_january)
unfolding load_location is_blank local date clock date_of day_number ◌+ℤ◌ ◌-ℤ◌ ◌*ℤ◌
next_deadline-months_example =
    next_deadline-months zones monthly_report end_of_january utc refl utc-IsConsistent refl
      (omega arith) refl (utc-IsClear 63842376600000000000 (omega arith))
      (utc-IsClear 63844795800000000000 (omega arith))
      (utc-IsClear 63844795800000000000 (omega arith))

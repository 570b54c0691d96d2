-- ===== src/Ordinary/Files.antt =====
-- DRIVER_TESTS of check_ordinary.py, the test files that the runner names.
use samgita.Prelude.{String, List, [], ◌∷◌}

abbrev pub driver_tests : List String
driver_tests =
    "native_mcp_request_metadata_test.exs" ∷ "native_injected_history_lifecycle_test.exs"
    ∷ "native_active_injected_history_lifecycle_test.exs"
    ∷ "native_inherited_items_read_lifecycle_test.exs"
    ∷ "native_ordinary_app_context_history_test.exs"
    ∷ "native_ordinary_apps_thread_context_test.exs" ∷ "native_ordinary_apps_read_metadata_test.exs"
    ∷ "native_ordinary_installed_apps_test.exs" ∷ "native_ordinary_plugin_share_list_test.exs"
    ∷ "native_ordinary_marketplace_kinds_test.exs"
    ∷ "native_ordinary_share_checkout_delete_test.exs"
    ∷ "native_ordinary_lifecycle_request_ids_test.exs"
    ∷ "native_ordinary_background_terminals_test.exs"
    ∷ "native_ordinary_hook_session_flags_test.exs" ∷ "native_ordinary_mcp_resource_test.exs"
    ∷ "native_ordinary_search_occurrences_test.exs" ∷ "native_ordinary_marketplace_remove_test.exs"
    ∷ "native_ordinary_catalog_metadata_notification_test.exs"
    ∷ "native_ordinary_plugin_template_metadata_test.exs"
    ∷ "native_ordinary_remote_plugin_limit_test.exs" ∷ "native_ordinary_remote_lifecycle_test.exs"
    ∷ "native_ordinary_plugin_reconcile_test.exs" ∷ "native_ordinary_plugin_share_save_test.exs"
    ∷ "native_ordinary_plugin_skill_read_test.exs" ∷ "native_ordinary_mcp_form_lifecycle_test.exs"
    ∷ "native_ordinary_mcp_form_values_test.exs" ∷ "native_ordinary_current_time_test.exs"
    ∷ "native_initialize_experimental_default_test.exs"
    ∷ "native_ordinary_environment_skills_test.exs" ∷ "native_ordinary_feedback_test.exs"
    ∷ "native_search_input_wait_test.exs" ∷ "native_plugin_search_scope_test.exs"
    ∷ "native_local_plugin_filter_values_test.exs"
    ∷ "native_local_plugin_search_pagination_test.exs" ∷ "native_thread_service_name_test.exs"
    ∷ "native_creation_snapshot_notification_test.exs"
    ∷ "native_resume_collaboration_result_test.exs" ∷ "native_turn_runtime_roots_test.exs"
    ∷ "native_hook_config_error_test.exs" ∷ "native_plugin_search_logo_test.exs"
    ∷ "native_search_creator_roots_test.exs" ∷ "native_plugin_search_sources_test.exs"
    ∷ "native_multi_agent_mode_values_test.exs" ∷ "native_import_record_history_test.exs"
    ∷ "native_mcp_startup_notice_test.exs" ∷ "native_command_output_stream_values_test.exs"
    ∷ "native_process_notification_envelope_test.exs" ∷ "native_session_import_success_test.exs"
    ∷ "native_fuzzy_notification_envelope_test.exs"
    ∷ "native_goal_queue_notification_envelope_test.exs"
    ∷ "native_reasoning_checklist_envelope_test.exs" ∷ "native_fs_notification_envelope_test.exs"
    ∷ "native_file_change_envelope_test.exs" ∷ "native_collaboration_lifecycle_values_test.exs"
    ∷ "native_collaboration_interrupted_test.exs" ∷ "native_unclassified_turn_error_test.exs"
    ∷ "native_interrupt_hook_test.exs" ∷ "native_fork_git_notification_test.exs"
    ∷ "native_realtime_start_stop_test.exs" ∷ "native_shell_delta_identity_test.exs"
    ∷ "native_failed_dynamic_tool_notification_test.exs" ∷ "native_thread_revert_profile.exs"
    ∷ "native_attachment_envelope_test.exs" ∷ "native_environment_observation_test.exs"
    ∷ "native_environment_connection_envelope_test.exs" ∷ "native_local_environment_info_test.exs"
    ∷ "native_local_environment_missing_cwd_test.exs" ∷ "native_initialize_request_ids_test.exs"
    ∷ "native_fs_path_values_test.exs" ∷ "native_hook_plugin_metadata_test.exs"
    ∷ "native_collaboration_catalogue_test.exs" ∷ "native_mcp_status_detail_test.exs"
    ∷ "native_local_config_migration_test.exs" ∷ "native_local_plugin_migration_test.exs"
    ∷ "native_local_memory_migration_test.exs" ∷ "native_config_override_metadata_test.exs"
    ∷ "native_turn_plugin_list_test.exs" ∷ "native_turn_environments_lifecycle_test.exs"
    ∷ "native_skills_changed_envelope_test.exs" ∷ "native_project_notification_envelope_test.exs"
    ∷ "native_read_state_notification_envelope_test.exs" ∷ "native_mcp_event_envelope_test.exs"
    ∷ "native_terminal_interaction_envelope_test.exs" ∷ "native_config_warning_envelope_test.exs"
    ∷ "native_marketplace_git_selection_test.exs" ∷ "native_marketplace_partial_error_test.exs"
    ∷ "native_review_source_values_test.exs" ∷ "native_subagent_search_provenance_test.exs"
    ∷ "native_compact_hook_test.exs" ∷ "native_session_end_hook_test.exs"
    ∷ "native_subagent_hook_test.exs" ∷ "native_tool_hook_test.exs" ∷ "native_mcp_hook_test.exs"
    ∷ "native_plugin_hook_test.exs" ∷ "native_command_control_values_test.exs"
    ∷ "native_process_values_test.exs" ∷ []

-- EXTRA_DRIVER_TESTS
abbrev pub extra_driver_tests : List String
extra_driver_tests =
    "native_ordinary_account_read_metadata_test.exs"
    ∷ "native_ordinary_initialize_extensions_test.exs"
    ∷ "native_ordinary_provider_websocket_plan_test.exs" ∷ "native_ordinary_raw_envelopes_test.exs"
    ∷ "native_ordinary_rate_limit_metadata_test.exs" ∷ "native_ordinary_summary_git_test.exs"
    ∷ "native_ordinary_websocket_gap_test.exs" ∷ "native_ordinary_installed_thread_context_test.exs"
    ∷ "native_ordinary_mcp_not_started_test.exs" ∷ "native_ordinary_active_page_recovery_test.exs"
    ∷ "native_ordinary_installed_null_test.exs" ∷ "native_standalone_source_selector_test.exs"
    ∷ "native_thread_sort_values_test.exs" ∷ "ordinary_request_options_test.exs" ∷ []
